-- ===== src/Decimal/Rat.antt =====
-- What internal/rules/decimal.go uses of math/big's `Rat`: exact fractions with a positive
-- denominator. The numerator is kept as a difference of two numbers, `up - down`.
use Prim.Native.Nat.{ℕ, zero, suc, ◌+◌, ◌-◌, ◌*◌, ◌/◌, ◌%◌, ◌^◌, compare, Ordering}
use mathlib.Core.Bool.{Bool}
use mathlib.Core.List.{List, [], ◌∷◌, ◌++◌}
use gezerah.Base.Tests.{ltb, leb, nat_beq, if◌then◌else◌}
use gezerah.Base.Lists.{length, replicate}

pub record Rat : Type 0 where
  pub up : ℕ
  pub down : ℕ
  pub den : ℕ

-- (*big.Rat).Cmp; Go's -1, 0 and 1 are lt, eq and gt.
unfoldable pub cmp_rat : Rat → Rat → Ordering
cmp_rat a b = compare (a.up * b.den + b.down * a.den) (b.up * a.den + a.down * b.den)

unfoldable pub add_rat : Rat → Rat → Rat
add_rat a b = record {
  up = a.up * b.den + b.up * a.den;
  down = a.down * b.den + b.down * a.den;
  den = a.den * b.den;
}

unfoldable pub neg_rat : Rat → Rat
neg_rat a = record { up = a.down; down = a.up; den = a.den }

unfoldable pub sub_rat : Rat → Rat → Rat
unfolding add_rat neg_rat
sub_rat a b = add_rat a (neg_rat b)

unfoldable pub mul_rat : Rat → Rat → Rat
mul_rat a b = record {
  up = a.up * b.up + a.down * b.down;
  down = a.up * b.down + a.down * b.up;
  den = a.den * b.den;
}

-- Sign() < 0
unfoldable pub is_negative_rat : Rat → Bool
is_negative_rat a = ltb a.up a.down

-- Sign() > 0
unfoldable pub is_positive_rat : Rat → Bool
is_positive_rat a = ltb a.down a.up

-- The absolute value of the numerator.
unfoldable pub magnitude : Rat → ℕ
magnitude a = (a.up - a.down) + (a.down - a.up)

-- Quo(a, b).Denom() is 1, for a positive `b`.
unfoldable pub quotient_is_integer : Rat → Rat → Bool
unfolding magnitude
quotient_is_integer a b = nat_beq ((magnitude a * b.den) % (a.den * magnitude b)) 0

-- The decimal notation of a number as code points, the last digit first written.
unfoldable pub digits_onto : ℕ → ℕ → List ℕ → List ℕ
digits_onto zero n acc = acc
digits_onto (suc fuel) n acc =
    let d = b'0' + n % 10 in
    let rest = digits_onto fuel (n / 10) (d ∷ acc) in if ltb n 10 then d ∷ acc else rest

-- A number has fewer digits than its value and two.
unfoldable pub nat_text : ℕ → List ℕ
unfolding digits_onto
nat_text n = digits_onto (suc n) n []

-- (*big.Rat).FloatString(prec): rounded half away from zero, `prec` digits behind the point.
unfoldable pub float_string : Rat → ℕ → List ℕ
unfolding magnitude is_negative_rat nat_text
float_string a prec =
    let whole = magnitude a / a.den in
    let scaled = (magnitude a % a.den) * 10 ^ prec in
    let rounded = if leb a.den (2 * (scaled % a.den)) then scaled / a.den + 1 else scaled / a.den in
    let carry = leb (10 ^ prec) rounded in
    let whole' = if carry then whole + 1 else whole in
    let rest = if carry then rounded - 10 ^ prec else rounded in
    let rest_text = nat_text rest in
    (if is_negative_rat a then b'-' ∷ [] else [])
    ++ nat_text whole'
    ++ (if nat_beq prec 0
        then []
        else b'.' ∷ (replicate (prec - length rest_text) b'0' ++ rest_text))
