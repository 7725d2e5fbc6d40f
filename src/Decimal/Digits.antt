-- ===== src/Decimal/Digits.antt =====
-- The decimal notation of a number is digits, at least one, and at most as many as a power of ten
-- above it has zeros.
use Prim.Native.Nat.{ℕ, zero, suc, ◌+◌, ◌/◌, ◌%◌, ◌^◌, ◌<◌, ◌≤◌}
use mathlib.Core.Bool.{true, false, ◌&&◌}
use mathlib.Core.List.{List, [], ◌∷◌}
use mathlib.Core.Path.{◌≡◌, refl}
use native.Mathlib.Omega.{arith}
use native.Mathlib.Nat.{pow-suc}
use gezerah.Base.Lists.{All, length}
use gezerah.Base.Tests.{leb}
use gezerah.Decimal.Parse.{is_empty, all_digits}
use gezerah.Decimal.Rat.{nat_text, digits_onto}

-- A digit of ASCII.
abbrev pub IsDigit : ℕ → Type 0
IsDigit c = (leb 48 c && leb c 57) ≡ true

digits_onto-IsDigit :
    (fuel n : ℕ) (acc : List ℕ) → All IsDigit acc → All IsDigit (digits_onto fuel n acc)
unfolding digits_onto
digits_onto-IsDigit zero n acc h = h
digits_onto-IsDigit (suc fuel) n acc h =
    ground
      (arith, h, digits_onto-IsDigit fuel (n / 10) ((48 + n % 10) ∷ acc) (ground (arith, h), h))

pub nat_text-IsDigit : (n : ℕ) → All IsDigit (nat_text n)
unfolding nat_text
nat_text-IsDigit n = digits_onto-IsDigit (suc n) n [] tt

pub all_digits-IsDigit : (s : List ℕ) → All IsDigit s → all_digits s ≡ true
unfolding all_digits
all_digits-IsDigit [] h = refl
all_digits-IsDigit (c ∷ s) h = ground (arith, h, all_digits-IsDigit s h.1)

digits_onto-nonempty :
    (fuel n : ℕ) (c : ℕ) (acc : List ℕ) → is_empty (digits_onto fuel n (c ∷ acc)) ≡ false
unfolding digits_onto
digits_onto-nonempty zero n c acc = refl
digits_onto-nonempty (suc fuel) n c acc =
    ground (arith, digits_onto-nonempty fuel (n / 10) (48 + n % 10) (c ∷ acc))

pub nat_text-nonempty : (n : ℕ) → is_empty (nat_text n) ≡ false
unfolding nat_text digits_onto
nat_text-nonempty n = ground (arith, digits_onto-nonempty n (n / 10) (48 + n % 10) [])

digits_onto-length :
    (fuel k n : ℕ) (acc : List ℕ)
    → n < 10 ^ suc k
    → length (digits_onto fuel n acc) ≤ suc k + length acc
unfolding digits_onto
digits_onto-length zero k n acc small = omega arith
digits_onto-length (suc fuel) zero n acc small = ground (arith, small)
digits_onto-length (suc fuel) (suc k) n acc small =
    let shorter : n / 10 < 10 ^ suc k = omega (arith, small, pow-suc 10 (suc k)) in
    ground (arith, digits_onto-length fuel k (n / 10) ((48 + n % 10) ∷ acc) shorter)

-- A number below a power of ten has at most as many digits.
pub nat_text-length : (k n : ℕ) → n < 10 ^ suc k → length (nat_text n) ≤ suc k
unfolding nat_text
nat_text-length k n small = omega (arith, digits_onto-length (suc n) k n [] small)
