-- ===== src/App/Base64.antt =====
-- base64.RawStdEncoding and its Strict decoding, as internal/app/auth.go uses them: the standard
-- alphabet without padding. A decoder skips line breaks and wants the unused low bits to be zero.
use Prim.Native.Nat.{ℕ, ◌+◌, ◌-◌, ◌*◌, ◌/◌, ◌%◌, ◌<◌}
use mathlib.Core.Bool.{true, ◌||◌, ◌&&◌}
use mathlib.Core.List.{List, [], ◌∷◌}
use mathlib.Core.Option.{Option, none, some, map}
use mathlib.Core.Path.{◌≡◌, refl}
use native.Mathlib.Omega.{arith}
use gezerah.Base.Lists.{All}
use gezerah.Base.Tests.{ltb, leb, nat_beq, if◌then◌else◌}

-- The character of a value below 64.
abbrev pub symbol : ℕ → ℕ
symbol v =
    if ltb v 26
    then 65 + v
    else if ltb v 52
    then 97 + (v - 26)
    else if ltb v 62
    then 48 + (v - 52)
    else if nat_beq v 62
    then 43
    else 47

abbrev pub symbol_value : ℕ → Option ℕ
symbol_value c =
    if leb 65 c && leb c 90
    then some (c - 65)
    else if leb 97 c && leb c 122
    then some (c - 97 + 26)
    else if leb 48 c && leb c 57
    then some (c - 48 + 52)
    else if nat_beq c 43
    then some 62
    else if nat_beq c 47
    then some 63
    else none

-- EncodeToString
unfoldable pub encode64 : List ℕ → List ℕ
encode64 [] = []
encode64 (a ∷ []) = symbol (a / 4) ∷ symbol (a % 4 * 16) ∷ []
encode64 (a ∷ b ∷ []) = symbol (a / 4) ∷ symbol (a % 4 * 16 + b / 16) ∷ symbol (b % 16 * 4) ∷ []
encode64 (a ∷ b ∷ c ∷ rest) =
    symbol (a / 4)
    ∷ symbol (a % 4 * 16 + b / 16)
    ∷ symbol (b % 16 * 4 + c / 64)
    ∷ symbol (c % 64)
    ∷ encode64 rest

-- The values of the characters, line breaks skipped.
unfoldable pub symbol_values : List ℕ → Option (List ℕ)
symbol_values [] = some []
symbol_values (c ∷ s) =
    let rest = symbol_values s in
    if nat_beq c 10 || nat_beq c 13
    then rest
    else elim (symbol_value c) [ none ↦ none | some v ↦ map (◌∷◌ v) rest ]

unfoldable pub group_bytes : List ℕ → Option (List ℕ)
group_bytes [] = some []
group_bytes (w ∷ []) = none
group_bytes (w ∷ x ∷ []) = if nat_beq (x % 16) 0 then some ((w * 4 + x / 16) ∷ []) else none
group_bytes (w ∷ x ∷ y ∷ []) =
    if nat_beq (y % 4) 0 then some ((w * 4 + x / 16) ∷ (x % 16 * 16 + y / 4) ∷ []) else none
group_bytes (w ∷ x ∷ y ∷ z ∷ rest) =
    map (λ bytes. (w * 4 + x / 16) ∷ (x % 16 * 16 + y / 4) ∷ (y % 4 * 64 + z) ∷ bytes)
      (group_bytes rest)

-- Strict().DecodeString
unfoldable pub decode64 : List ℕ → Option (List ℕ)
unfolding symbol_values group_bytes
decode64 s = elim (symbol_values s) [ none ↦ none | some values ↦ group_bytes values ]

-- The values that an encoding stands for.
encoded_values : List ℕ → List ℕ
encoded_values [] = []
encoded_values (a ∷ []) = (a / 4) ∷ (a % 4 * 16) ∷ []
encoded_values (a ∷ b ∷ []) = (a / 4) ∷ (a % 4 * 16 + b / 16) ∷ (b % 16 * 4) ∷ []
encoded_values (a ∷ b ∷ c ∷ rest) =
    (a / 4) ∷ (a % 4 * 16 + b / 16) ∷ (b % 16 * 4 + c / 64) ∷ (c % 64) ∷ encoded_values rest

symbol_values-cons :
    (v : ℕ) (s vs : List ℕ)
    → v < 64
    → symbol_values s ≡ some vs
    → symbol_values (symbol v ∷ s) ≡ some (v ∷ vs)
unfolding symbol_values
symbol_values-cons v s vs low h = ground (arith, low, h)

abbrev pub IsByte : ℕ → Type 0
IsByte b = b < 256

symbol_values-encode64 :
    (bytes : List ℕ)
    → All IsByte bytes
    → symbol_values (encode64 bytes) ≡ some (encoded_values bytes)
unfolding encode64 encoded_values
symbol_values-encode64 [] h = unfold symbol_values in refl
symbol_values-encode64 (a ∷ []) h =
    symbol_values-cons _ _ _ (omega (arith, h))
      (symbol_values-cons _ _ _ (omega (arith, h)) (unfold symbol_values in refl))
symbol_values-encode64 (a ∷ b ∷ []) h = symbol_values-cons _ _ _ (omega (arith, h)) (
    symbol_values-cons _ _ _ (omega (arith, h))
      (symbol_values-cons _ _ _ (omega (arith, h)) (unfold symbol_values in refl)))
symbol_values-encode64 (a ∷ b ∷ c ∷ rest) h = symbol_values-cons _ _ _ (omega (arith, h)) (
    symbol_values-cons _ _ _ (omega (arith, h)) (
      symbol_values-cons _ _ _ (omega (arith, h))
        (symbol_values-cons _ _ _ (omega (arith, h)) (symbol_values-encode64 rest h.1.1.1))))

group_bytes-encoded_values :
    (bytes : List ℕ) → All IsByte bytes → group_bytes (encoded_values bytes) ≡ some bytes
unfolding group_bytes encoded_values
group_bytes-encoded_values [] h = refl
group_bytes-encoded_values (a ∷ []) h = ground (arith, h)
group_bytes-encoded_values (a ∷ b ∷ []) h = ground (arith, h)
group_bytes-encoded_values (a ∷ b ∷ c ∷ rest) h =
    ground (arith, h, group_bytes-encoded_values rest h.1.1.1)

-- What is encoded is decoded again, for every sequence of bytes.
pub decode64-encode64 : (bytes : List ℕ) → All IsByte bytes → decode64 (encode64 bytes) ≡ some bytes
unfolding decode64
decode64-encode64 bytes h =
    rw (symbol_values-encode64 bytes h, decode64) (group_bytes-encoded_values bytes h)

-- An encoding has no character outside the alphabet.
abbrev pub IsSymbol : ℕ → Type 0
IsSymbol c = ((leb 43 c && leb c 122) ≡ true)

pub encode64-IsSymbol : (bytes : List ℕ) → All IsByte bytes → All IsSymbol (encode64 bytes)
unfolding encode64
encode64-IsSymbol [] h = tt
encode64-IsSymbol (a ∷ []) h = ground (arith, h)
encode64-IsSymbol (a ∷ b ∷ []) h = ground (arith, h)
encode64-IsSymbol (a ∷ b ∷ c ∷ rest) h = ground (arith, h, encode64-IsSymbol rest h.1.1.1)
