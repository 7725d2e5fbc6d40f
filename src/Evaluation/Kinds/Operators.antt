-- ===== src/Evaluation/Kinds/Operators.antt =====
-- The operations of evaluateExpressionOperation on operands of the right kinds: a value of the kind
-- of the result, or an arithmetic error.
use Prim.Native.Nat.{Ordering}
use mathlib.Core.Bool.{Bool, true, false, not}
use mathlib.Core.List.{List, [], ◌∷◌}
use mathlib.Core.Path.{◌≡◌, refl, ap}
use native.Mathlib.Omega.{arith}
use gezerah.Base.Tests.{nat_beq, ltb}
use gezerah.Base.Lists.{All, length}
use gezerah.Decimal.Parse.{Decimal, Parsed, parsed, failed}
use gezerah.Decimal.Ops.{subtract, negate, cmp}
use gezerah.Errors.{Result, plain}
use gezerah.Effects.{decimal_error_text}
use gezerah.Decimal.Arithmetic.{InRange, subtract-InRange, negate-InRange}
use gezerah.Types.{
  value_number, value_boolean, kind_eq, MechanicValue, ExpressionOperation, op_not,
  op_subtract_number, op_negate_number,
}
use gezerah.Values.{number_value, boolean_value, valid_shape}
use gezerah.Evaluation.Operations.{
  lift_decimal, number_of, boolean_of, fold_rest, fold_numbers, compare_numbers, subtract_numbers,
  negate_number, fold_booleans, connect, negate_boolean,
}
use gezerah.Evaluation.Kinds.{Shaped, Post, Post-bind}

-- A result that is of no interest but for its error.
abbrev pub Sane {ℓ} : {A : Type ℓ} → Result A → Type 0
Sane r = Post (λ _. Unit {0}) r

pub lift_decimal-Sane : (p : Parsed Decimal) → InRange p → Sane (lift_decimal p)
lift_decimal-Sane (parsed d) h = tt
lift_decimal-Sane (failed e) h = ap (λ e. plain (decimal_error_text e)) h

number_of-Sane :
    (op : ExpressionOperation) (v : MechanicValue) → Shaped value_number v → Sane (number_of op v)
unfolding number_of valid_shape
number_of-Sane op v h = ground (arith, h.0, h.1)

boolean_of-Sane :
    (op : ExpressionOperation) (v : MechanicValue) → Shaped value_boolean v → Sane (boolean_of op v)
unfolding boolean_of valid_shape
boolean_of-Sane op v h = ground (arith, h.0, h.1)

number_value-Shaped : (d : Decimal) → Shaped value_number (number_value d)
unfolding valid_shape
number_value-Shaped d = (refl, refl)

pub boolean_value-Shaped : (b : Bool) → Shaped value_boolean (boolean_value b)
unfolding valid_shape
boolean_value-Shaped b = (refl, refl)

module _ (op : ExpressionOperation) where
  fold_rest-Sane :
      (combine : Decimal → Decimal → Result Decimal) (r : Decimal) (vs : List MechanicValue)
      → ((a b : Decimal) → Sane (combine a b))
      → All (Shaped value_number) vs
      → Sane (fold_rest op combine r vs)
  unfolding fold_rest
  fold_rest-Sane combine r [] h shaped = tt
  fold_rest-Sane combine r (v ∷ vs) h shaped =
      Post-bind _ _ (number_of op v) _ (number_of-Sane op v shaped.0) λ next _.
        Post-bind _ _ (combine r next) _ (h r next) λ r' _. fold_rest-Sane combine r' vs h shaped.1

  pub fold_numbers-Shaped :
      (combine : Decimal → Decimal → Result Decimal) (vs : List MechanicValue)
      → ((a b : Decimal) → Sane (combine a b))
      → All (Shaped value_number) vs
      → ltb (length vs) 2 ≡ false
      → Post (Shaped value_number) (fold_numbers op combine vs)
  unfolding fold_numbers
  fold_numbers-Shaped combine [] h shaped long = absurd (ground (arith, long))
  fold_numbers-Shaped combine (a ∷ []) h shaped long = absurd (ground (arith, long))
  fold_numbers-Shaped combine (a ∷ b ∷ vs) h shaped long =
      Post-bind _ _ (number_of op a) _ (number_of-Sane op a shaped.0) λ first _.
        Post-bind _ _ (fold_rest op combine first (b ∷ vs)) _
          (fold_rest-Sane combine first (b ∷ vs) h shaped.1) λ r _. number_value-Shaped r

  pub compare_numbers-Shaped :
      (test : Ordering → Bool) (vs : List MechanicValue)
      → All (Shaped value_number) vs
      → nat_beq (length vs) 2 ≡ true
      → Post (Shaped value_boolean) (compare_numbers op test vs)
  unfolding compare_numbers
  compare_numbers-Shaped test [] shaped two = absurd (ground (arith, two))
  compare_numbers-Shaped test (a ∷ []) shaped two = absurd (ground (arith, two))
  compare_numbers-Shaped test (a ∷ b ∷ []) shaped two =
      Post-bind _ _ (number_of op a) _ (number_of-Sane op a shaped.0) λ left _.
        Post-bind _ _ (number_of op b) _ (number_of-Sane op b shaped.1.0)
          λ right _. boolean_value-Shaped (test (cmp left right))
  compare_numbers-Shaped test (a ∷ b ∷ c ∷ vs) shaped two = absurd (ground (arith, two))

  fold_booleans-Sane :
      (combine : Bool → Bool → Bool) (r : Bool) (vs : List MechanicValue)
      → All (Shaped value_boolean) vs
      → Sane (fold_booleans op combine r vs)
  unfolding fold_booleans
  fold_booleans-Sane combine r [] shaped = tt
  fold_booleans-Sane combine r (v ∷ vs) shaped =
      Post-bind _ _ (boolean_of op v) _ (boolean_of-Sane op v shaped.0)
        λ b _. fold_booleans-Sane combine (combine r b) vs shaped.1

  pub connect-Shaped :
      (combine : Bool → Bool → Bool) (start : Bool) (vs : List MechanicValue)
      → All (Shaped value_boolean) vs
      → ltb (length vs) 2 ≡ false
      → Post (Shaped value_boolean) (connect op combine start vs)
  unfolding connect
  connect-Shaped combine start [] shaped long = absurd (ground (arith, long))
  connect-Shaped combine start (a ∷ []) shaped long = absurd (ground (arith, long))
  connect-Shaped combine start (a ∷ b ∷ vs) shaped long =
      Post-bind _ _ (fold_booleans op combine start (a ∷ b ∷ vs)) _
        (fold_booleans-Sane combine start (a ∷ b ∷ vs) shaped) λ r _. boolean_value-Shaped r

pub subtract_numbers-Shaped :
    (vs : List MechanicValue)
    → All (Shaped value_number) vs
    → nat_beq (length vs) 2 ≡ true
    → Post (Shaped value_number) (subtract_numbers vs)
unfolding subtract_numbers
subtract_numbers-Shaped [] shaped two = absurd (ground (arith, two))
subtract_numbers-Shaped (a ∷ []) shaped two = absurd (ground (arith, two))
subtract_numbers-Shaped (a ∷ b ∷ []) shaped two =
    Post-bind _ _ (number_of op_subtract_number a) _ (number_of-Sane op_subtract_number a shaped.0)
      λ left _.
        Post-bind _ _ (number_of op_subtract_number b) _
          (number_of-Sane op_subtract_number b shaped.1.0)
          λ right _.
            Post-bind _ _ (lift_decimal (subtract left right)) _
              (lift_decimal-Sane (subtract left right) (subtract-InRange left right))
              λ d _. number_value-Shaped d
subtract_numbers-Shaped (a ∷ b ∷ c ∷ vs) shaped two = absurd (ground (arith, two))

pub negate_number-Shaped :
    (vs : List MechanicValue)
    → All (Shaped value_number) vs
    → nat_beq (length vs) 1 ≡ true
    → Post (Shaped value_number) (negate_number vs)
unfolding negate_number
negate_number-Shaped [] shaped one = absurd (ground (arith, one))
negate_number-Shaped (a ∷ []) shaped one =
    Post-bind _ _ (number_of op_negate_number a) _ (number_of-Sane op_negate_number a shaped.0)
      λ d _.
        Post-bind _ _ (lift_decimal (negate d)) _ (lift_decimal-Sane (negate d) (negate-InRange d))
          λ r _. number_value-Shaped r
negate_number-Shaped (a ∷ b ∷ vs) shaped one = absurd (ground (arith, one))

pub negate_boolean-Shaped :
    (vs : List MechanicValue)
    → All (Shaped value_boolean) vs
    → nat_beq (length vs) 1 ≡ true
    → Post (Shaped value_boolean) (negate_boolean vs)
unfolding negate_boolean
negate_boolean-Shaped [] shaped one = absurd (ground (arith, one))
negate_boolean-Shaped (a ∷ []) shaped one =
    Post-bind _ _ (boolean_of op_not a) _ (boolean_of-Sane op_not a shaped.0)
      λ b _. boolean_value-Shaped (not b)
negate_boolean-Shaped (a ∷ b ∷ vs) shaped one = absurd (ground (arith, one))
