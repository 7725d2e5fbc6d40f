-- ===== src/Evaluation/Operations.antt =====
-- evaluateExpressionOperation and applyModifier of internal/rules/evaluation.go.
use Prim.Native.Nat.{Ordering}
use Prim.Native.String.{String, ◌++◌ as join}
use mathlib.Core.Bool.{Bool, true, false, ◌&&◌, ◌||◌, not}
use mathlib.Core.List.{List, [], ◌∷◌}
use mathlib.Core.Option.{Option, none, some}
use gezerah.Base.Tests.{◌==◌, if◌then◌else◌}
use gezerah.Decimal.Parse.{Decimal, Parsed, parsed, failed}
use gezerah.Decimal.Ops.{cmp, add, subtract, multiply, negate, is_lt, is_gt}
use gezerah.Errors.{Result, ok, err, ◌>>=◌, plain}
use gezerah.Types.{
  value_number, value_boolean, value_other, kind_eq, MechanicValue, ExpressionOperation, op_literal,
  op_mechanic_reference, op_add_number, op_subtract_number, op_multiply_number, op_min_number,
  op_max_number, op_negate_number, op_and, op_or, op_not, op_equal, op_less_number,
  op_less_or_equal_number, op_greater_number, op_greater_or_equal_number, op_if, op_other,
  modifier_set, modifier_add_number, modifier_multiply_number, modifier_other, StatusModifier,
}
use gezerah.Values.{clone_value, number_value, boolean_value, values_equal}
use gezerah.Effects.{decimal_error_text}

unfoldable pub operation_text : ExpressionOperation → String
operation_text op_literal = "literal"
operation_text op_mechanic_reference = "mechanic-reference"
operation_text op_add_number = "add-number"
operation_text op_subtract_number = "subtract-number"
operation_text op_multiply_number = "multiply-number"
operation_text op_min_number = "min-number"
operation_text op_max_number = "max-number"
operation_text op_negate_number = "negate-number"
operation_text op_and = "and"
operation_text op_or = "or"
operation_text op_not = "not"
operation_text op_equal = "equal"
operation_text op_less_number = "less-than"
operation_text op_less_or_equal_number = "less-than-or-equal"
operation_text op_greater_number = "greater-than"
operation_text op_greater_or_equal_number = "greater-than-or-equal"
operation_text op_if = "if"
operation_text (op_other s) = s

-- A result of the decimals as one of this package.
abbrev pub lift_decimal : Parsed Decimal → Result Decimal
lift_decimal (parsed d) = ok d
lift_decimal (failed e) = err (plain (decimal_error_text e))

abbrev complain {ℓ} : {A : Type ℓ} → ExpressionOperation → String → Result A
complain op message = err (plain (join (operation_text op) message))

-- The number of a value whose kind is number.
abbrev pub as_number : MechanicValue → Option Decimal
as_number v = elim v.kind [ value_number ↦ v.number | value_boolean ↦ none | value_other s ↦ none ]

abbrev pub as_boolean : MechanicValue → Option Bool
as_boolean v = elim v.kind [
  | value_number ↦ none
  | value_boolean ↦ v.boolean
  | value_other s ↦ none
]

-- numberAt, at an operand that is there.
unfoldable pub number_of : ExpressionOperation → MechanicValue → Result Decimal
number_of op v = elim (as_number v) [
  | none ↦ complain op " requires numeric operands"
  | some d ↦ ok d
]

-- booleanAt, at an operand that is there.
unfoldable pub boolean_of : ExpressionOperation → MechanicValue → Result Bool
boolean_of op v = elim (as_boolean v) [
  | none ↦ complain op " requires boolean operands"
  | some b ↦ ok b
]

-- The loop of foldNumbers.
unfoldable pub fold_rest :
    ExpressionOperation
    → (Decimal → Decimal → Result Decimal)
    → Decimal
    → List MechanicValue
    → Result Decimal
fold_rest op combine result [] = ok result
fold_rest op combine result (v ∷ vs) = do
  next ← number_of op v
  result' ← combine result next
  fold_rest op combine result' vs

-- foldNumbers
unfoldable pub fold_numbers :
    ExpressionOperation
    → (Decimal → Decimal → Result Decimal)
    → List MechanicValue
    → Result MechanicValue
fold_numbers op combine (a ∷ b ∷ vs) = do
  first ← number_of op a
  result ← fold_rest op combine first (b ∷ vs)
  ok (number_value result)
fold_numbers op combine [] = complain op " requires at least two operands"
fold_numbers op combine (a ∷ []) = complain op " requires at least two operands"

-- Two numeric operands, and what is made of them.
abbrev with_two :
    ExpressionOperation
    → (Decimal → Decimal → Result MechanicValue)
    → MechanicValue
    → MechanicValue
    → Result MechanicValue
with_two op f a b = do left ← number_of op a; right ← number_of op b; f left right

-- compareNumbers
unfoldable pub compare_numbers :
    ExpressionOperation → (Ordering → Bool) → List MechanicValue → Result MechanicValue
compare_numbers op test (a ∷ b ∷ []) =
    with_two op (λ left right. ok (boolean_value (test (cmp left right)))) a b
compare_numbers op test [] = complain op " requires exactly two operands"
compare_numbers op test (a ∷ []) = complain op " requires exactly two operands"
compare_numbers op test (a ∷ b ∷ c ∷ vs) = complain op " requires exactly two operands"

unfoldable pub subtract_numbers : List MechanicValue → Result MechanicValue
subtract_numbers (a ∷ b ∷ []) =
    with_two op_subtract_number
      (λ left right. lift_decimal (subtract left right) >>= λ d. ok (number_value d)) a b
subtract_numbers [] = complain op_subtract_number " requires exactly two operands"
subtract_numbers (a ∷ []) = complain op_subtract_number " requires exactly two operands"
subtract_numbers (a ∷ b ∷ c ∷ vs) = complain op_subtract_number " requires exactly two operands"

unfoldable pub negate_number : List MechanicValue → Result MechanicValue
negate_number (a ∷ []) = do
  operand ← number_of op_negate_number a
  result ← lift_decimal (negate operand)
  ok (number_value result)
negate_number [] = complain op_negate_number " requires exactly one operand"
negate_number (a ∷ b ∷ vs) = complain op_negate_number " requires exactly one operand"

-- The loop of ExpressionAnd and ExpressionOr.
unfoldable pub fold_booleans :
    ExpressionOperation → (Bool → Bool → Bool) → Bool → List MechanicValue → Result Bool
fold_booleans op combine result [] = ok result
fold_booleans op combine result (v ∷ vs) = do
  value ← boolean_of op v
  fold_booleans op combine (combine result value) vs

unfoldable pub connect :
    ExpressionOperation → (Bool → Bool → Bool) → Bool → List MechanicValue → Result MechanicValue
connect op combine start (a ∷ b ∷ vs) = do
  result ← fold_booleans op combine start (a ∷ b ∷ vs)
  ok (boolean_value result)
connect op combine start [] = complain op " requires at least two operands"
connect op combine start (a ∷ []) = complain op " requires at least two operands"

unfoldable pub negate_boolean : List MechanicValue → Result MechanicValue
negate_boolean (a ∷ []) = do value ← boolean_of op_not a; ok (boolean_value (not value))
negate_boolean [] = complain op_not " requires exactly one operand"
negate_boolean (a ∷ b ∷ vs) = complain op_not " requires exactly one operand"

unfoldable pub equal_operands : List MechanicValue → Result MechanicValue
equal_operands (a ∷ b ∷ []) =
    if a.kind == b.kind
    then ok (boolean_value (values_equal a b))
    else complain op_equal " requires two operands of the same scalar kind"
equal_operands [] = complain op_equal " requires two operands of the same scalar kind"
equal_operands (a ∷ []) = complain op_equal " requires two operands of the same scalar kind"
equal_operands (a ∷ b ∷ c ∷ vs) = complain op_equal " requires two operands of the same scalar kind"

unfoldable pub choose : List MechanicValue → Result MechanicValue
choose (c ∷ a ∷ b ∷ []) = elim (as_boolean c) [
  | none ↦ complain op_if " requires a boolean condition and two same-kind branches"
  | some t ↦
      if a.kind == b.kind
      then ok (clone_value (if t then a else b))
      else complain op_if " requires a boolean condition and two same-kind branches"
]
choose [] = complain op_if " requires a boolean condition and two same-kind branches"
choose (c ∷ []) = complain op_if " requires a boolean condition and two same-kind branches"
choose (c ∷ a ∷ []) = complain op_if " requires a boolean condition and two same-kind branches"
choose (c ∷ a ∷ b ∷ d ∷ vs) =
    complain op_if " requires a boolean condition and two same-kind branches"

-- The smaller, and the larger, of two; the left one where they are equal.
abbrev smaller : Decimal → Decimal → Result Decimal
smaller left right = ok (if is_lt (cmp right left) then right else left)

abbrev larger : Decimal → Decimal → Result Decimal
larger left right = ok (if is_gt (cmp right left) then right else left)

-- evaluateExpressionOperation
unfoldable pub evaluate_operation : ExpressionOperation → List MechanicValue → Result MechanicValue
evaluate_operation op_literal values =
    complain op_literal " must be evaluated before operand dispatch"
evaluate_operation op_mechanic_reference values =
    complain op_mechanic_reference " must be evaluated before operand dispatch"
evaluate_operation op_add_number values =
    fold_numbers op_add_number (λ a b. lift_decimal (add a b)) values
evaluate_operation op_multiply_number values =
    fold_numbers op_multiply_number (λ a b. lift_decimal (multiply a b)) values
evaluate_operation op_min_number values = fold_numbers op_min_number smaller values
evaluate_operation op_max_number values = fold_numbers op_max_number larger values
evaluate_operation op_subtract_number values = subtract_numbers values
evaluate_operation op_negate_number values = negate_number values
evaluate_operation op_and values = connect op_and ◌&&◌ true values
evaluate_operation op_or values = connect op_or ◌||◌ false values
evaluate_operation op_not values = negate_boolean values
evaluate_operation op_equal values = equal_operands values
evaluate_operation op_less_number values = compare_numbers op_less_number is_lt values
evaluate_operation op_less_or_equal_number values =
    compare_numbers op_less_or_equal_number (λ o. not (is_gt o)) values
evaluate_operation op_greater_number values = compare_numbers op_greater_number is_gt values
evaluate_operation op_greater_or_equal_number values =
    compare_numbers op_greater_or_equal_number (λ o. not (is_lt o)) values
evaluate_operation op_if values = choose values
evaluate_operation (op_other s) values = err (plain (join "unsupported expression operation " s))

-- Both numbers of a numeric modifier.
abbrev pub combine_modifier :
    (Decimal → Decimal → Parsed Decimal)
    → String
    → Option Decimal
    → Option Decimal
    → Result MechanicValue
combine_modifier f message (some a) (some b) = lift_decimal (f a b) >>= λ d. ok (number_value d)
combine_modifier f message (some a) none = err (plain message)
combine_modifier f message none b = err (plain message)

-- applyModifier
unfoldable pub apply_modifier : MechanicValue → StatusModifier → Result MechanicValue
apply_modifier value m = elim m.operation [
  | modifier_set ↦
      if value.kind == m.value.kind
      then ok (clone_value m.value)
      else err (plain "set modifier kind does not match current value")
  | modifier_add_number ↦
      combine_modifier add "add-number modifier requires numeric values" (as_number value)
        (as_number m.value)
  | modifier_multiply_number ↦
      combine_modifier multiply "multiply-number modifier requires numeric values" (as_number value)
        (as_number m.value)
  | modifier_other s ↦ err (plain (join "unsupported modifier operation " s))
]
