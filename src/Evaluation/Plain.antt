-- ===== src/Evaluation/Plain.antt =====
-- The errors that operations and modifiers raise are errors of the source.
use Prim.Native.Nat.{Ordering}
use mathlib.Core.Bool.{Bool, true, false}
use mathlib.Core.List.{List, [], ◌∷◌}
use mathlib.Core.Path.{◌≡◌, refl}
use native.Mathlib.Omega.{arith}
use gezerah.Decimal.Parse.{Decimal, Parsed, parsed, failed}
use gezerah.Decimal.Ops.{add, multiply, subtract, negate}
use gezerah.Errors.{Error, domain, plain, out_of_fuel, Result, ok, err, ◌>>=◌, evaluation_error}
use gezerah.Types.{
  MechanicValue, ExpressionOperation, op_literal, op_mechanic_reference, op_add_number,
  op_subtract_number, op_multiply_number, op_min_number, op_max_number, op_negate_number, op_and,
  op_or, op_not, op_equal, op_less_number, op_less_or_equal_number, op_greater_number,
  op_greater_or_equal_number, op_if, op_other,
}
use gezerah.Evaluation.Operations.{
  lift_decimal, number_of, boolean_of, fold_rest, fold_numbers, compare_numbers, subtract_numbers,
  negate_number, fold_booleans, connect, negate_boolean, equal_operands, choose, evaluate_operation,
  apply_modifier,
}
use gezerah.Evaluation.Modifiers.{ResolvedModifier, modifier_result, apply_modifiers}

abbrev pub is_fuel : Error → Bool
is_fuel out_of_fuel = true
is_fuel (domain e) = false
is_fuel (plain s) = false

-- The result is no exhaustion of the model's fuel.
abbrev pub NoFuel {ℓ} : {A : Type ℓ} → Result A → Type 0
NoFuel (ok a) = Unit {0}
NoFuel (err e) = is_fuel e ≡ false

pub NoFuel-bind {ℓ κ} :
    {A : Type ℓ} {B : Type κ} (m : Result A) (f : A → Result B)
    → NoFuel m
    → ((a : A) → NoFuel (f a))
    → NoFuel (m >>= f)
NoFuel-bind (ok a) f h k = k a
NoFuel-bind (err e) f h k = h

lift_decimal-NoFuel : (p : Parsed Decimal) → NoFuel (lift_decimal p)
lift_decimal-NoFuel (parsed d) = tt
lift_decimal-NoFuel (failed e) = refl

number_of-NoFuel : (op : ExpressionOperation) (v : MechanicValue) → NoFuel (number_of op v)
unfolding number_of
number_of-NoFuel op v = ground arith

boolean_of-NoFuel : (op : ExpressionOperation) (v : MechanicValue) → NoFuel (boolean_of op v)
unfolding boolean_of
boolean_of-NoFuel op v = ground arith

module _ (op : ExpressionOperation) where
  fold_rest-NoFuel :
      (combine : Decimal → Decimal → Result Decimal) (r : Decimal) (vs : List MechanicValue)
      → ((a b : Decimal) → NoFuel (combine a b))
      → NoFuel (fold_rest op combine r vs)
  unfolding fold_rest
  fold_rest-NoFuel combine r [] h = tt
  fold_rest-NoFuel combine r (v ∷ vs) h =
      NoFuel-bind (number_of op v) _ (number_of-NoFuel op v)
        λ next. NoFuel-bind (combine r next) _ (h r next) λ r'. fold_rest-NoFuel combine r' vs h

  fold_numbers-NoFuel :
      (combine : Decimal → Decimal → Result Decimal) (vs : List MechanicValue)
      → ((a b : Decimal) → NoFuel (combine a b))
      → NoFuel (fold_numbers op combine vs)
  unfolding fold_numbers
  fold_numbers-NoFuel combine [] h = refl
  fold_numbers-NoFuel combine (a ∷ []) h = refl
  fold_numbers-NoFuel combine (a ∷ b ∷ vs) h =
      NoFuel-bind (number_of op a) _ (number_of-NoFuel op a) λ first.
        NoFuel-bind (fold_rest op combine first (b ∷ vs)) _
          (fold_rest-NoFuel combine first (b ∷ vs) h) λ r. tt

  compare_numbers-NoFuel :
      (test : Ordering → Bool) (vs : List MechanicValue) → NoFuel (compare_numbers op test vs)
  unfolding compare_numbers
  compare_numbers-NoFuel test [] = refl
  compare_numbers-NoFuel test (a ∷ []) = refl
  compare_numbers-NoFuel test (a ∷ b ∷ []) =
      NoFuel-bind (number_of op a) _ (number_of-NoFuel op a)
        λ left. NoFuel-bind (number_of op b) _ (number_of-NoFuel op b) λ right. tt
  compare_numbers-NoFuel test (a ∷ b ∷ c ∷ vs) = refl

  fold_booleans-NoFuel :
      (combine : Bool → Bool → Bool) (r : Bool) (vs : List MechanicValue)
      → NoFuel (fold_booleans op combine r vs)
  unfolding fold_booleans
  fold_booleans-NoFuel combine r [] = tt
  fold_booleans-NoFuel combine r (v ∷ vs) =
      NoFuel-bind (boolean_of op v) _ (boolean_of-NoFuel op v)
        λ b. fold_booleans-NoFuel combine (combine r b) vs

  connect-NoFuel :
      (combine : Bool → Bool → Bool) (start : Bool) (vs : List MechanicValue)
      → NoFuel (connect op combine start vs)
  unfolding connect
  connect-NoFuel combine start [] = refl
  connect-NoFuel combine start (a ∷ []) = refl
  connect-NoFuel combine start (a ∷ b ∷ vs) =
      NoFuel-bind (fold_booleans op combine start (a ∷ b ∷ vs)) _
        (fold_booleans-NoFuel combine start (a ∷ b ∷ vs)) λ r. tt

subtract_numbers-NoFuel : (vs : List MechanicValue) → NoFuel (subtract_numbers vs)
unfolding subtract_numbers
subtract_numbers-NoFuel [] = refl
subtract_numbers-NoFuel (a ∷ []) = refl
subtract_numbers-NoFuel (a ∷ b ∷ []) =
    NoFuel-bind (number_of op_subtract_number a) _ (number_of-NoFuel op_subtract_number a) λ left.
      NoFuel-bind (number_of op_subtract_number b) _ (number_of-NoFuel op_subtract_number b)
        λ right.
          NoFuel-bind (lift_decimal (subtract left right)) _
            (lift_decimal-NoFuel (subtract left right)) λ d. tt
subtract_numbers-NoFuel (a ∷ b ∷ c ∷ vs) = refl

negate_number-NoFuel : (vs : List MechanicValue) → NoFuel (negate_number vs)
unfolding negate_number
negate_number-NoFuel [] = refl
negate_number-NoFuel (a ∷ []) =
    NoFuel-bind (number_of op_negate_number a) _ (number_of-NoFuel op_negate_number a)
      λ d. NoFuel-bind (lift_decimal (negate d)) _ (lift_decimal-NoFuel (negate d)) λ r. tt
negate_number-NoFuel (a ∷ b ∷ vs) = refl

negate_boolean-NoFuel : (vs : List MechanicValue) → NoFuel (negate_boolean vs)
unfolding negate_boolean
negate_boolean-NoFuel [] = refl
negate_boolean-NoFuel (a ∷ []) =
    NoFuel-bind (boolean_of op_not a) _ (boolean_of-NoFuel op_not a) λ b. tt
negate_boolean-NoFuel (a ∷ b ∷ vs) = refl

equal_operands-NoFuel : (vs : List MechanicValue) → NoFuel (equal_operands vs)
unfolding equal_operands
equal_operands-NoFuel [] = refl
equal_operands-NoFuel (a ∷ []) = refl
equal_operands-NoFuel (a ∷ b ∷ []) = ground arith
equal_operands-NoFuel (a ∷ b ∷ c ∷ vs) = refl

choose-NoFuel : (vs : List MechanicValue) → NoFuel (choose vs)
unfolding choose
choose-NoFuel [] = refl
choose-NoFuel (a ∷ []) = refl
choose-NoFuel (a ∷ b ∷ []) = refl
choose-NoFuel (c ∷ a ∷ b ∷ []) = ground arith
choose-NoFuel (a ∷ b ∷ c ∷ d ∷ vs) = refl

pub evaluate_operation-NoFuel :
    (op : ExpressionOperation) (vs : List MechanicValue) → NoFuel (evaluate_operation op vs)
unfolding evaluate_operation
evaluate_operation-NoFuel op_literal vs = refl
evaluate_operation-NoFuel op_mechanic_reference vs = refl
evaluate_operation-NoFuel op_add_number vs =
    fold_numbers-NoFuel op_add_number _ vs λ a b. lift_decimal-NoFuel (add a b)
evaluate_operation-NoFuel op_multiply_number vs =
    fold_numbers-NoFuel op_multiply_number _ vs λ a b. lift_decimal-NoFuel (multiply a b)
evaluate_operation-NoFuel op_min_number vs = fold_numbers-NoFuel op_min_number _ vs λ a b. tt
evaluate_operation-NoFuel op_max_number vs = fold_numbers-NoFuel op_max_number _ vs λ a b. tt
evaluate_operation-NoFuel op_subtract_number vs = subtract_numbers-NoFuel vs
evaluate_operation-NoFuel op_negate_number vs = negate_number-NoFuel vs
evaluate_operation-NoFuel op_and vs = connect-NoFuel op_and _ _ vs
evaluate_operation-NoFuel op_or vs = connect-NoFuel op_or _ _ vs
evaluate_operation-NoFuel op_not vs = negate_boolean-NoFuel vs
evaluate_operation-NoFuel op_equal vs = equal_operands-NoFuel vs
evaluate_operation-NoFuel op_less_number vs = compare_numbers-NoFuel op_less_number _ vs
evaluate_operation-NoFuel op_less_or_equal_number vs =
    compare_numbers-NoFuel op_less_or_equal_number _ vs
evaluate_operation-NoFuel op_greater_number vs = compare_numbers-NoFuel op_greater_number _ vs
evaluate_operation-NoFuel op_greater_or_equal_number vs =
    compare_numbers-NoFuel op_greater_or_equal_number _ vs
evaluate_operation-NoFuel op_if vs = choose-NoFuel vs
evaluate_operation-NoFuel (op_other s) vs = refl

-- The errors of modifiers are wrapped, whatever they are.
modifier_result-NoFuel :
    (r : ResolvedModifier) (m : Result MechanicValue) → NoFuel (modifier_result r m)
unfolding evaluation_error
modifier_result-NoFuel r (ok w) = tt
modifier_result-NoFuel r (err e) = refl

pub apply_modifiers-NoFuel :
    (rs : List ResolvedModifier) (v : MechanicValue) → NoFuel (apply_modifiers rs v)
unfolding apply_modifiers
apply_modifiers-NoFuel [] v = tt
apply_modifiers-NoFuel (r ∷ rs) v =
    NoFuel-bind (modifier_result r (apply_modifier v r.modifier)) _
      (modifier_result-NoFuel r (apply_modifier v r.modifier))
      λ w. NoFuel-bind (apply_modifiers rs w) _ (apply_modifiers-NoFuel rs w) λ p. tt
