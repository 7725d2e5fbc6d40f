-- ===== src/Decimal/Parse.antt =====
-- `ParseDecimal` of internal/rules/decimal.go, over the code points of its input, and what it uses
-- of Go's strings and strconv.
use Prim.Native.Nat.{ℕ, suc, ◌+◌, ◌-◌, ◌*◌, ◌^◌}
use mathlib.Core.Bool.{Bool, true, false, ◌&&◌, ◌||◌, not}
use mathlib.Core.List.{List, [], ◌∷◌, ◌++◌}
use mathlib.Core.Logic.{◌⊎◌, inl, inr}
use mathlib.Core.Path.{◌≡◌, refl}
use mathlib.Core.Option.{Option, none, some}
use gezerah.Base.Tests.{ltb, leb, nat_beq, if◌then◌else◌}
use gezerah.Base.Lists.{length, take, drop, replicate, any}
use gezerah.Base.Int.{ℤ, pos, pos_part, neg_part, sub_ℕ, ltb_ℤ}

pub record Decimal : Type 0 where
  pub canonical : List ℕ

-- Decimal{}, numeric zero.
abbrev pub zero_decimal : Decimal
zero_decimal = record { canonical = [] }

pub data DecimalError : Type 0 where
  invalid_decimal : List ℕ → DecimalError
  invalid_exponent : List ℕ → DecimalError
  scale_too_large : DecimalError

pub data Parsed {ℓ} (A : Type ℓ) : Type ℓ where
  parsed : A → Parsed A
  failed : DecimalError → Parsed A

infixl 5 ◌>>=◌
abbrev pub ◌>>=◌ {ℓ κ} : {A : Type ℓ} {B : Type κ} → Parsed A → (A → Parsed B) → Parsed B
parsed a >>= f = f a
failed e >>= f = failed e

pub Parsed-cases {ℓ} :
    {A : Type ℓ} (p : Parsed A) → ((a : A) × (p ≡ parsed a)) ⊎ ((e : DecimalError) × (p ≡ failed e))
Parsed-cases (parsed a) = inl (a, refl)
Parsed-cases (failed e) = inr (e, refl)

abbrev pub max_decimal_exponent : ℕ
max_decimal_exponent = 10000

-- unicode.IsSpace
unfoldable pub is_space : ℕ → Bool
is_space c =
    (leb 9 c && leb c 13)
    || nat_beq c 32
    || nat_beq c 0x85
    || nat_beq c 0xA0
    || nat_beq c 0x1680
    || (leb 0x2000 c && leb c 0x200A)
    || nat_beq c 0x2028
    || nat_beq c 0x2029
    || nat_beq c 0x202F
    || nat_beq c 0x205F
    || nat_beq c 0x3000

abbrev pub is_empty : List ℕ → Bool
is_empty [] = true
is_empty (c ∷ s) = false

unfoldable pub trim_left : (ℕ → Bool) → List ℕ → List ℕ
trim_left p [] = []
trim_left p (c ∷ s) = if p c then trim_left p s else c ∷ s

unfoldable pub trim_right : (ℕ → Bool) → List ℕ → List ℕ
trim_right p [] = []
trim_right p (c ∷ s) = let rest = trim_right p s in if p c && is_empty rest then [] else c ∷ rest

unfoldable pub same_text : List ℕ → List ℕ → Bool
same_text [] [] = true
same_text [] (d ∷ t) = false
same_text (c ∷ s) [] = false
same_text (c ∷ s) (d ∷ t) = nat_beq c d && same_text s t

-- strings.IndexAny and strings.IndexByte; `none` is -1.
unfoldable pub index_where : (ℕ → Bool) → List ℕ → Option ℕ
index_where p [] = none
index_where p (c ∷ s) =
    if p c then some 0 else elim (index_where p s) [ none ↦ none | some i ↦ some (suc i) ]

-- strings.Count of a single character.
unfoldable pub count_where : (ℕ → Bool) → List ℕ → ℕ
count_where p [] = 0
count_where p (c ∷ s) = (if p c then 1 else 0) + count_where p s

abbrev pub is_exponent_mark : ℕ → Bool
is_exponent_mark c = nat_beq c b'e' || nat_beq c b'E'

abbrev pub is_dot : ℕ → Bool
is_dot c = nat_beq c b'.'

abbrev is_zero_digit : ℕ → Bool
is_zero_digit c = nat_beq c b'0'

-- `for _, r := range value`
unfoldable pub all_digits : List ℕ → Bool
all_digits [] = true
all_digits (c ∷ s) = if ltb c b'0' || ltb b'9' c then false else all_digits s

-- The number that a run of digits denotes, after `acc`.
unfoldable pub digits_value : ℕ → List ℕ → ℕ
digits_value acc [] = acc
digits_value acc (c ∷ s) = digits_value (acc * 10 + (c - b'0')) s

-- `+` and `-` in front.
unfoldable pub split_sign : List ℕ → Bool × List ℕ
split_sign [] = (false, [])
split_sign (c ∷ s) =
    if nat_beq c b'-' then (true, s) else if nat_beq c b'+' then (false, s) else (false, c ∷ s)

-- strconv.Atoi; `none` is its error, for the syntax or for the range of an int.
unfoldable pub atoi : List ℕ → Option ℤ
unfolding split_sign all_digits digits_value
atoi s =
    let (negative, digits) = split_sign s in
    let n = digits_value 0 digits in
    if is_empty digits || not (all_digits digits)
    then none
    else if negative
    then (if leb n (2 ^ 63) then some (sub_ℕ 0 n) else none)
    else (if ltb n (2 ^ 63) then some (pos n) else none)

abbrev exponent_in_range : ℤ → Bool
exponent_in_range e =
    not (ltb_ℤ e (sub_ℕ 0 max_decimal_exponent)) && not (ltb_ℤ (pos max_decimal_exponent) e)

abbrev checked_exponent : List ℕ → List ℕ → Option ℤ → Parsed (List ℕ × ℤ)
checked_exponent input mantissa none = failed (invalid_exponent input)
checked_exponent input mantissa (some e) =
    if exponent_in_range e then parsed (mantissa, e) else failed (invalid_exponent input)

-- The mantissa and the exponent.
unfoldable pub split_exponent : List ℕ → Parsed (List ℕ × ℤ)
unfolding index_where atoi
split_exponent input = elim (index_where is_exponent_mark input) [
  | none ↦ parsed (input, pos 0)
  | some i ↦
      let after = drop (suc i) input in
      if any is_exponent_mark after || is_empty after
      then failed (invalid_decimal input)
      else checked_exponent input (take i input) (atoi after)
]

-- The digits in front of the point and behind it.
unfoldable pub split_point : List ℕ → List ℕ × List ℕ
unfolding index_where
split_point mantissa = elim (index_where is_dot mantissa) [
  | none ↦ (mantissa, [])
  | some dot ↦ (take dot mantissa, drop (suc dot) mantissa)
]

-- From `digits` and a scale that is not negative to the canonical text with no sign.
unfoldable pub place_point : List ℕ → ℕ → List ℕ
unfolding trim_left trim_right
place_point digits scale =
    let padded =
      if leb (length digits) scale
      then replicate (scale - length digits + 1) b'0' ++ digits
      else digits in
    let split = length padded - scale in
    let text =
      if nat_beq scale 0
      then padded
      else trim_right is_dot
          (trim_right is_zero_digit (take split padded ++ b'.' ∷ drop split padded)) in
    let trimmed = trim_left is_zero_digit text in
    elim trimmed [ [] ↦ [] | c ∷ s ↦ if is_dot c then b'0' ∷ c ∷ s else c ∷ s ]

abbrev is_zero_text : List ℕ → Bool
is_zero_text [] = true
is_zero_text (c ∷ []) = is_zero_digit c
is_zero_text (c ∷ d ∷ s) = false

abbrev with_sign : Bool → List ℕ → Decimal
with_sign negative text =
    if is_zero_text text
    then zero_decimal
    else record { canonical = if negative then b'-' ∷ text else text }

-- The rest of the function, behind the checks on the digits. `scale` is len(fraction) - exponent.
unfoldable pub build_decimal : Bool → List ℕ → List ℕ → ℤ → Parsed Decimal
unfolding trim_left place_point
build_decimal negative integer fraction exponent =
    let digits = trim_left is_zero_digit (integer ++ fraction) in
    let above = length fraction + neg_part exponent in
    let below = pos_part exponent in
    if is_empty digits
    then parsed zero_decimal
    else if ltb above below
    then parsed (with_sign negative (place_point (digits ++ replicate (below - above) b'0') 0))
    else if ltb max_decimal_exponent (above - below)
    then failed scale_too_large
    else parsed (with_sign negative (place_point digits (above - below)))

-- From the mantissa with no sign on.
unfoldable pub parse_mantissa : List ℕ → Bool → List ℕ → ℤ → Parsed Decimal
unfolding count_where split_point all_digits build_decimal
parse_mantissa input negative mantissa exponent =
    let (integer, fraction) = split_point mantissa in
    let integer' = if is_empty integer then b'0' ∷ [] else integer in
    if is_empty mantissa
    then failed (invalid_decimal input)
    else if ltb 1 (count_where is_dot mantissa)
    then failed (invalid_decimal input)
    else if is_empty integer && is_empty fraction
    then failed (invalid_decimal input)
    else if not (all_digits integer') || not (all_digits fraction)
    then failed (invalid_decimal input)
    else build_decimal negative integer' fraction exponent

unfoldable pub parse_decimal : List ℕ → Parsed Decimal
unfolding is_space trim_left trim_right same_text split_exponent split_sign parse_mantissa
parse_decimal input =
    if is_empty input || not (same_text (trim_right is_space (trim_left is_space input)) input)
    then failed (invalid_decimal input)
    else do
      (mantissa, exponent) ← split_exponent input
      let (negative, unsigned) = split_sign mantissa
      parse_mantissa input negative unsigned exponent
