-- ===== src/Decimal/Arithmetic.antt =====
-- The arithmetic of decimals writes its result with FloatString and parses it again: it fails only
-- where the scale is too large.
use Prim.Native.Nat.{ℕ, zero, suc, ◌+◌, ◌-◌, ◌*◌, ◌/◌, ◌%◌, ◌^◌, ◌<◌, max}
use mathlib.Core.Bool.{Bool, false}
use mathlib.Core.List.{[], ◌∷◌, ◌++◌}
use mathlib.Core.Path.{◌≡◌, refl}
use native.Mathlib.Omega.{arith}
use native.Mathlib.Nat.{
  div-zero, div-lt_iff_lt-mul, mul_comm, mul-lt-mul_of_pos_right, mod-lt, one-le-pow,
}
use gezerah.Base.Lists.{All, All-append, length, length-append, replicate}
use gezerah.Base.Tests.{leb, nat_beq, if◌then◌else◌}
use gezerah.Decimal.Rat.{Rat, nat_text, float_string, magnitude, add_rat, sub_rat, mul_rat, neg_rat}
use gezerah.Decimal.Ops.{add, subtract, multiply, negate, decimal_scale, rat}
use gezerah.Decimal.Digits.{nat_text-length, IsDigit, nat_text-IsDigit, nat_text-nonempty}
use gezerah.Decimal.Parse.{Decimal, scale_too_large, Parsed, parsed, failed, parse_decimal}
use gezerah.Decimal.Range.{Scaled, IsTail, no_tail, fraction_tail, number-Scaled}

replicate-IsDigit : (n : ℕ) → All IsDigit (replicate n b'0')
replicate-IsDigit zero = tt
replicate-IsDigit (suc n) = (refl, replicate-IsDigit n)

length-replicate : (n : ℕ) → length {A = ℕ} (replicate n b'0') ≡ n
length-replicate zero = refl
length-replicate (suc n) = omega (arith, length-replicate n)

fraction-IsTail :
    (k m : ℕ)
    → m < 10 ^ k
    → IsTail k (
        if nat_beq k 0 then [] else b'.' ∷ (replicate (k - length (nat_text m)) b'0' ++ nat_text m))
fraction-IsTail zero m small = no_tail 0
fraction-IsTail (suc k) m small =
    let behind : nat_beq (suc k) 0 ≡ false = ground arith in
    rw behind (
      fraction_tail (suc k) _
        (All-append IsDigit (replicate (suc k - length (nat_text m)) b'0') (nat_text m)
          (replicate-IsDigit (suc k - length (nat_text m))) (nat_text-IsDigit m))
        (omega (
          arith,
          length-append (replicate (suc k - length (nat_text m)) b'0') (nat_text m),
          length-replicate (suc k - length (nat_text m)),
          nat_text-length k m small,
        )))

float_text-Scaled :
    (k : ℕ) (negative : Bool) (w m : ℕ)
    → m < 10 ^ k
    → Scaled k (
        parse_decimal (
          (if negative then b'-' ∷ [] else [])
          ++ nat_text w
          ++ (if nat_beq k 0
              then []
              else b'.' ∷ (replicate (k - length (nat_text m)) b'0' ++ nat_text m))))
float_text-Scaled k negative w m small =
    number-Scaled k negative (nat_text w) _ (nat_text-IsDigit w) (nat_text-nonempty w)
      (fraction-IsTail k m small)

-- The digits behind the point, before they are rounded.
quotient-below : (x den t : ℕ) → 0 < t → (x % den) * t / den < t
quotient-below x zero t some_t = rw (div-zero ((x % 0) * t)) some_t
quotient-below x (suc d) t some_t =
    (div-lt_iff_lt-mul (omega arith)).1
      (rw (mul_comm t (suc d)) (mul-lt-mul_of_pos_right (mod-lt x (omega arith)) some_t))

-- Rounding carries what reaches a whole.
rounded-below :
    (t q : ℕ) (up : Bool)
    → q < t
    → (let rounded = if up then q + 1 else q in if leb t rounded then rounded - t else rounded) < t
rounded-below t q up below = ground (arith, below)

-- What ParseDecimal reads of FloatString is a decimal, or the scale is too large.
pub parse_decimal-float_string :
    (r : Rat) (prec : ℕ) → Scaled prec (parse_decimal (float_string r prec))
unfolding float_string
parse_decimal-float_string r prec =
    let below = quotient-below (magnitude r) r.den (10 ^ prec) (one-le-pow prec 10 (omega arith)) in
    search (float_text-Scaled, rounded-below)

-- Add, Subtract, Multiply and Negate return a decimal, or fail with the error of a scale that is
-- too large, and then the text that they parse has more than 10000 digits behind the point: as many
-- as the longer of the operands for Add and Subtract, as both together for Multiply, and as its
-- operand for Negate.
pub arithmetic_lem :
    (a b : Decimal)
    → Scaled (max (decimal_scale a.canonical) (decimal_scale b.canonical)) (add a b)
      × Scaled (max (decimal_scale a.canonical) (decimal_scale b.canonical)) (subtract a b)
      × Scaled (decimal_scale a.canonical + decimal_scale b.canonical) (multiply a b)
      × Scaled (decimal_scale a.canonical) (negate a)
unfolding add subtract multiply negate
arithmetic_lem a b =
    let longer : ℕ = max (decimal_scale a.canonical) (decimal_scale b.canonical) in
    (
      parse_decimal-float_string (add_rat (rat a) (rat b)) longer,
      parse_decimal-float_string (sub_rat (rat a) (rat b)) longer,
      parse_decimal-float_string (mul_rat (rat a) (rat b))
          (decimal_scale a.canonical + decimal_scale b.canonical),
      parse_decimal-float_string (neg_rat (rat a)) (decimal_scale a.canonical),
    )

-- A decimal, or the error of a scale out of range.
abbrev pub InRange : Parsed Decimal → Type 0
InRange (parsed d) = Unit
InRange (failed e) = e ≡ scale_too_large

Scaled-InRange : (k : ℕ) (p : Parsed Decimal) → Scaled k p → InRange p
Scaled-InRange k (parsed d) h = tt
Scaled-InRange k (failed e) h = h.0

pub add-InRange : (a b : Decimal) → InRange (add a b)
add-InRange a b = Scaled-InRange _ _ (arithmetic_lem a b).0

pub subtract-InRange : (a b : Decimal) → InRange (subtract a b)
subtract-InRange a b = Scaled-InRange _ _ (arithmetic_lem a b).1

pub multiply-InRange : (a b : Decimal) → InRange (multiply a b)
multiply-InRange a b = Scaled-InRange _ _ (arithmetic_lem a b).2

pub negate-InRange : (a : Decimal) → InRange (negate a)
negate-InRange a = Scaled-InRange _ _ (arithmetic_lem a a).3
