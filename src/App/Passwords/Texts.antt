-- ===== src/App/Passwords/Texts.antt =====
-- Splitting of texts, and numbers read back from their notation.
use Prim.Native.Nat.{ℕ, zero, suc, ◌+◌, ◌/◌, ◌%◌, ◌<◌, ◌≤◌}
use mathlib.Core.Bool.{true, false}
use mathlib.Core.List.{List, [], ◌∷◌, ◌++◌}
use mathlib.Core.Logic.{inl, inr}
use mathlib.Core.Option.{some}
use mathlib.Core.Path.{◌≡◌, refl, ap, ◌∙◌}
use native.Mathlib.Omega.{arith}
use gezerah.Base.Lists.{All, length}
use gezerah.Base.Tests.{ltb, nat_beq, nat_beq_iff, Bool-cases}
use gezerah.Decimal.Parse.{digits_value}
use gezerah.Decimal.Rat.{nat_text, digits_onto}
use gezerah.Decimal.Digits.{nat_text-IsDigit, all_digits-IsDigit, nat_text-nonempty}
use gezerah.App.Passwords.{Bytes, bytes_equal, split, trim_prefix, parse_uint, component_length}

-- The separator is not in the text.
abbrev pub Free : ℕ → Bytes → Type 0
Free separator = All (λ c. nat_beq c separator ≡ false)

pub split-field :
    (separator : ℕ) (field s : Bytes)
    → Free separator field
    → split separator (field ++ separator ∷ s) ≡ field ∷ split separator s
unfolding split
split-field separator [] s h = rw ((nat_beq_iff separator separator).1 refl) refl
split-field separator (c ∷ field) s h = rw (h.0, split-field separator field s h.1) refl

pub split-Free :
    (separator : ℕ) (field : Bytes) → Free separator field → split separator field ≡ field ∷ []
unfolding split
split-Free separator [] h = refl
split-Free separator (c ∷ field) h = rw (h.0, split-Free separator field h.1) refl

-- Fields with a separator between them: strings.Join.
abbrev pub joined : ℕ → Bytes → List Bytes → Bytes
joined separator field [] = field
joined separator field (next ∷ fields) = field ++ separator ∷ joined separator next fields

pub split-joined :
    (separator : ℕ) (field : Bytes) (fields : List Bytes)
    → All (Free separator) (field ∷ fields)
    → split separator (joined separator field fields) ≡ field ∷ fields
split-joined separator field [] h = split-Free separator field h.0
split-joined separator field (next ∷ fields) h =
    split-field separator field (joined separator next fields) h.0
    ∙ ap (◌∷◌ field) (split-joined separator next fields h.1)

pub bytes_equal_refl : (s : Bytes) → bytes_equal s s ≡ true
bytes_equal_refl [] = refl
bytes_equal_refl (c ∷ s) = ground (arith, bytes_equal_refl s)

pub trim_prefix-append : (p s : Bytes) → trim_prefix p (p ++ s) ≡ some s
unfolding trim_prefix
trim_prefix-append [] s = refl
trim_prefix-append (c ∷ p) s = rw ((nat_beq_iff c c).1 refl) (trim_prefix-append p s)

digits_value-digits_onto :
    (fuel n : ℕ) (acc : Bytes)
    → n < fuel
    → digits_value 0 (digits_onto fuel n acc) ≡ digits_value n acc
unfolding digits_onto digits_value
digits_value-digits_onto zero n acc h = absurd (omega (arith, h))
digits_value-digits_onto (suc fuel) n acc h = elim (Bool-cases (ltb n 10)) [
  | inl small ↦
      let low : n < 10 = ground (arith, small) in
      rw small (ap (λ a. digits_value a acc) (omega (arith, low)))
  | inr big ↦
      let high : 10 ≤ n = ground (arith, big) in
      rw big (
        digits_value-digits_onto fuel (n / 10) ((48 + n % 10) ∷ acc) (omega (arith, h, high))
        ∙ ap (λ a. digits_value a acc) (omega arith))
]

pub digits_value-nat_text : (n : ℕ) → digits_value 0 (nat_text n) ≡ n
unfolding nat_text digits_value
digits_value-nat_text n = digits_value-digits_onto (suc n) n [] (omega arith)

-- A number below 2^32 is read back from its notation.
pub parse_uint-nat_text : (n : ℕ) → n < 4294967296 → parse_uint (nat_text n) ≡ some n
unfolding parse_uint
parse_uint-nat_text n h =
    rw
      (
        nat_text-nonempty n,
        all_digits-IsDigit (nat_text n) (nat_text-IsDigit n),
        digits_value-nat_text n,
      )
      (ground (arith, h))

pub component_length-length :
    (bytes : Bytes) → length bytes < 4294967296 → component_length bytes ≡ length bytes
unfolding component_length
component_length-length [] h = refl
component_length-length (b ∷ bytes) h =
    omega (arith, h, component_length-length bytes (omega (arith, h)))
