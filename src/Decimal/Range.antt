-- ===== src/Decimal/Range.antt =====
-- Numbers written with digits, a point and a minus: ParseDecimal refuses only a scale that is too
-- large.
use Prim.Native.Nat.{ℕ, ◌+◌, ◌-◌, ◌<◌, ◌≤◌}
use mathlib.Core.Bool.{Bool, true, false}
use mathlib.Core.List.{List, [], ◌∷◌, ◌++◌, append-nil}
use mathlib.Core.Logic.{inl, inr}
use mathlib.Core.Path.{◌≡◌, refl, sym, subst}
use native.Mathlib.Omega.{arith}
use gezerah.Base.Int.{pos, pos_part, neg_part}
use gezerah.Base.Lists.{All, All-append, All-map_of, length}
use gezerah.Base.Tests.{ltb, Bool-cases, if◌then◌else◌}
use gezerah.Decimal.Digits.{IsDigit, all_digits-IsDigit}
use gezerah.Decimal.Parse.{
  Decimal, max_decimal_exponent, max_decimal_exponent, scale_too_large, Parsed, parsed, failed,
  is_empty, is_dot, count_where, is_exponent_mark, split_exponent, split_point, split_sign,
  all_digits, build_decimal, parse_mantissa, parse_decimal,
}
use gezerah.Decimal.Written.{
  IsWritten, trim_left-IsWritten, trim_right-IsWritten, same_text_refl, index_where-eq-none,
  index_where-found, count_where-append, count_where-eq-zero, take-append, drop-append,
  is_empty-append, no_dot,
}

-- A decimal; or the scale is too large, and it is one of at most `k` digits behind the point.
abbrev pub Scaled : ℕ → Parsed Decimal → Type 0
Scaled k (parsed d) = Unit
Scaled k (failed e) = (e ≡ scale_too_large) × (max_decimal_exponent < k)

if-Scaled :
    (k : ℕ) (b : Bool) (p q : Parsed Decimal)
    → Scaled k p
    → Scaled k q
    → Scaled k (if b then p else q)
if-Scaled k true p q hp hq = hp
if-Scaled k false p q hp hq = hq

scale-Scaled :
    (k n : ℕ) (p : Parsed Decimal)
    → n ≤ k
    → Scaled k p
    → Scaled k (if ltb max_decimal_exponent n then failed scale_too_large else p)
scale-Scaled k n p small h = elim (Bool-cases (ltb max_decimal_exponent n)) [
  | inl large ↦ rw large (refl, ground (arith, large, small))
  | inr fits ↦ rw fits h
]

build_decimal-Scaled :
    (k : ℕ) (negative : Bool) (integer fraction : List ℕ)
    → length fraction ≤ k
    → Scaled k (build_decimal negative integer fraction (pos 0))
unfolding build_decimal
build_decimal-Scaled k negative integer fraction small =
    let small' : length fraction + neg_part (pos 0) - pos_part (pos 0) ≤ k = omega (arith, small) in
    search (if-Scaled, scale-Scaled)

module _ (k : ℕ) (input : List ℕ) (negative : Bool) (whole : List ℕ) (digits : All IsDigit whole)
    (some_digit : is_empty whole ≡ false) where
  parse_mantissa-whole : Scaled k (parse_mantissa input negative whole (pos 0))
  unfolding parse_mantissa split_point all_digits
  parse_mantissa-whole =
      rw
        (
          index_where-eq-none is_dot whole (no_dot whole digits),
          count_where-eq-zero is_dot whole (no_dot whole digits),
          some_digit,
          all_digits-IsDigit whole digits,
          parse_mantissa,
          split_point,
        )
        (build_decimal-Scaled k negative whole [] (omega arith))

  parse_mantissa-point :
      (fraction : List ℕ)
      → All IsDigit fraction
      → length fraction ≤ k
      → Scaled k (parse_mantissa input negative (whole ++ b'.' ∷ fraction) (pos 0))
  unfolding parse_mantissa split_point all_digits count_where
  parse_mantissa-point fraction behind small =
      rw
        (
          index_where-found is_dot whole fraction b'.' (no_dot whole digits) refl,
          count_where-append is_dot whole (b'.' ∷ fraction) (no_dot whole digits),
          count_where-eq-zero is_dot fraction (no_dot fraction behind),
          take-append whole (b'.' ∷ fraction),
          drop-append whole fraction b'.',
          is_empty-append whole (b'.' ∷ fraction) some_digit,
          some_digit,
          all_digits-IsDigit whole digits,
          all_digits-IsDigit fraction behind,
          parse_mantissa,
          split_point,
        )
        (build_decimal-Scaled k negative whole fraction small)

parse_decimal-Scaled :
    (k : ℕ) (text : List ℕ)
    → All IsWritten text
    → is_empty text ≡ false
    → Scaled k (parse_mantissa text (split_sign text).0 (split_sign text).1 (pos 0))
    → Scaled k (parse_decimal text)
unfolding parse_decimal split_exponent
parse_decimal-Scaled k text written some_text mantissa =
    rw
      (
        trim_left-IsWritten text written,
        trim_right-IsWritten text written,
        same_text_refl text,
        some_text,
        index_where-eq-none is_exponent_mark text
            (All-map_of (λ c h. ground (arith, h)) text written),
        parse_decimal,
        split_exponent,
      )
      mantissa

-- The part of a number behind its digits: nothing, or a point and at most `k` digits.
pub data IsTail : ℕ → List ℕ → Type 0 where
  no_tail : (k : ℕ) → IsTail k []
  fraction_tail :
      (k : ℕ) (fraction : List ℕ)
      → All IsDigit fraction
      → length fraction ≤ k
      → IsTail k (b'.' ∷ fraction)

digits-IsWritten : (s : List ℕ) → All IsDigit s → All IsWritten s
digits-IsWritten = All-map_of (λ c digit. ground (arith, digit))

tail-IsWritten : (k : ℕ) (tail : List ℕ) → IsTail k tail → All IsWritten tail
tail-IsWritten _ _ (no_tail k) = tt
tail-IsWritten _ _ (fraction_tail k fraction h small) = (refl, digits-IsWritten fraction h)

parse_mantissa-Scaled :
    (k : ℕ) (input : List ℕ) (negative : Bool) (whole tail : List ℕ)
    → All IsDigit whole
    → is_empty whole ≡ false
    → IsTail k tail
    → Scaled k (parse_mantissa input negative (whole ++ tail) (pos 0))
parse_mantissa-Scaled _ input negative whole _ digits some_digit (no_tail k) =
    subst (λ s. Scaled k (parse_mantissa input negative s (pos 0))) (sym (append-nil whole))
      (parse_mantissa-whole k input negative whole digits some_digit)
parse_mantissa-Scaled _ input negative whole _ digits some_digit
      (fraction_tail k fraction h small) =
    parse_mantissa-point k input negative whole digits some_digit fraction h small

split_sign-digits :
    (s t : List ℕ) → All IsDigit s → is_empty s ≡ false → split_sign (s ++ t) ≡ (false, s ++ t)
unfolding split_sign
split_sign-digits [] t digits some_digit = cc
split_sign-digits (c ∷ s) t digits some_digit = ground (arith, digits.0)

-- A text of an optional minus, digits and an optional fraction.
pub number-Scaled :
    (k : ℕ) (negative : Bool) (whole tail : List ℕ)
    → All IsDigit whole
    → is_empty whole ≡ false
    → IsTail k tail
    → Scaled k (parse_decimal ((if negative then b'-' ∷ [] else []) ++ whole ++ tail))
unfolding split_sign
number-Scaled k true whole tail digits some_digit ends =
    parse_decimal-Scaled k (b'-' ∷ whole ++ tail)
      (
        refl,
        All-append IsWritten whole tail (digits-IsWritten whole digits)
            (tail-IsWritten k tail ends),
      )
      refl (parse_mantissa-Scaled k (b'-' ∷ whole ++ tail) true whole tail digits some_digit ends)
number-Scaled k false whole tail digits some_digit ends =
    parse_decimal-Scaled k (whole ++ tail)
      (All-append IsWritten whole tail (digits-IsWritten whole digits) (tail-IsWritten k tail ends))
      (is_empty-append whole tail some_digit)
      (rw (split_sign-digits whole tail digits some_digit)
        (parse_mantissa-Scaled k (whole ++ tail) false whole tail digits some_digit ends))
