-- ===== src/Decimal/Ops.antt =====
-- The methods of `Decimal` in internal/rules/decimal.go.
use Prim.Native.Nat.{ℕ, suc, ◌+◌, ◌^◌, Ordering, max}
use mathlib.Core.Bool.{Bool, true, false, ◌||◌, not}
use mathlib.Core.List.{List, [], ◌∷◌, ◌++◌}
use mathlib.Core.Option.{Option, none, some, get_or}
use gezerah.Base.Tests.{if◌then◌else◌}
use gezerah.Base.Lists.{length, drop}
use gezerah.Decimal.Rat.{
  Rat, cmp_rat, add_rat, sub_rat, mul_rat, neg_rat, is_positive_rat, quotient_is_integer,
  float_string,
}
use gezerah.Decimal.Parse.{
  Decimal, zero_decimal, Parsed, is_empty, is_dot, index_where, split_sign, split_point, all_digits,
  digits_value, parse_decimal,
}

-- String()
unfoldable pub decimal_text : Decimal → List ℕ
decimal_text d = if is_empty d.canonical then b'0' ∷ [] else d.canonical

abbrev signed_rat : Bool → ℕ → ℕ → Rat
signed_rat negative n den =
    if negative
    then record { up = 0; down = n; den = den }
    else record { up = n; down = 0; den = den }

-- What (*big.Rat).SetString reads of a sign, digits and a point; `none` is `ok == false`.
unfoldable pub rat_of_text : List ℕ → Option Rat
unfolding split_sign split_point all_digits digits_value
rat_of_text text =
    let (negative, unsigned) = split_sign text in
    let (integer, fraction) = split_point unsigned in
    if is_empty (integer ++ fraction) || not (all_digits integer) || not (all_digits fraction)
    then none
    else some (signed_rat negative (digits_value 0 (integer ++ fraction)) (10 ^ length fraction))

abbrev pub zero_rat : Rat
zero_rat = record { up = 0; down = 0; den = 1 }

-- rat(). It panics where the text is no number, which no `Decimal` that was parsed has; the value
-- given here for that case stands for no run.
unfoldable pub rat : Decimal → Rat
unfolding decimal_text rat_of_text
rat d = get_or (rat_of_text (decimal_text d)) zero_rat

unfoldable pub cmp : Decimal → Decimal → Ordering
unfolding cmp_rat rat
cmp a b = cmp_rat (rat a) (rat b)

abbrev pub is_lt : Ordering → Bool
is_lt o = elim o [ Ordering.lt ↦ true | _ ↦ false ]

abbrev pub is_eq : Ordering → Bool
is_eq o = elim o [ Ordering.eq ↦ true | _ ↦ false ]

abbrev pub is_gt : Ordering → Bool
is_gt o = elim o [ Ordering.gt ↦ true | _ ↦ false ]

-- Equal
unfoldable pub equal : Decimal → Decimal → Bool
unfolding cmp
equal a b = is_eq (cmp a b)

-- IsZero
unfoldable pub is_zero : Decimal → Bool
is_zero d = is_empty d.canonical

-- IsPositive
unfoldable pub is_positive : Decimal → Bool
unfolding cmp
is_positive d = is_gt (cmp d zero_decimal)

-- decimalScale
unfoldable pub decimal_scale : List ℕ → ℕ
unfolding index_where
decimal_scale text = elim (index_where is_dot text) [
  | none ↦ 0
  | some dot ↦ length (drop (suc dot) text)
]

unfoldable pub add : Decimal → Decimal → Parsed Decimal
unfolding rat add_rat decimal_scale float_string parse_decimal
add a b = parse_decimal (
    float_string (add_rat (rat a) (rat b))
      (max (decimal_scale a.canonical) (decimal_scale b.canonical)))

-- Subtract
unfoldable pub subtract : Decimal → Decimal → Parsed Decimal
unfolding rat sub_rat decimal_scale float_string parse_decimal
subtract a b = parse_decimal (
    float_string (sub_rat (rat a) (rat b))
      (max (decimal_scale a.canonical) (decimal_scale b.canonical)))

unfoldable pub multiply : Decimal → Decimal → Parsed Decimal
unfolding rat mul_rat decimal_scale float_string parse_decimal
multiply a b =
    parse_decimal (
      float_string (mul_rat (rat a) (rat b))
        (decimal_scale a.canonical + decimal_scale b.canonical))

unfoldable pub negate : Decimal → Parsed Decimal
unfolding rat neg_rat decimal_scale float_string parse_decimal
negate a = parse_decimal (float_string (neg_rat (rat a)) (decimal_scale a.canonical))

-- AlignsTo
unfoldable pub aligns_to : Decimal → Decimal → Decimal → Bool
unfolding rat sub_rat is_positive_rat quotient_is_integer
aligns_to d step base =
    if not (is_positive_rat (rat step))
    then false
    else quotient_is_integer (sub_rat (rat d) (rat base)) (rat step)
