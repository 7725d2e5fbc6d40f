-- ===== src/Evaluation/Kinds/Inside.antt =====
-- The errors of inferExpressionType at an operation include those of its operands.
use Prim.Native.Nat.{ℕ}
use Prim.Native.String.{String}
use mathlib.Core.Bool.{Bool, true, false}
use mathlib.Core.List.{[], ◌++◌}
use mathlib.Core.Option.{Option}
use mathlib.Core.Path.{◌≡◌}
use native.Mathlib.Omega.{arith}
use gezerah.Base.Lists.{append-eq-nil}
use gezerah.Base.Map.{Map}
use gezerah.Base.Text.{dotted}
use gezerah.Errors.{ValidationErrors, fault}
use gezerah.Types.{
  RulesId, ValueKind, value_number, value_boolean, kind_eq, MechanicValue, MechanicDefinition,
  ExpressionOperation, op_literal, op_mechanic_reference, op_add_number, op_subtract_number,
  op_multiply_number, op_min_number, op_max_number, op_negate_number, op_and, op_or, op_not,
  op_equal, op_less_number, op_less_or_equal_number, op_greater_number, op_greater_or_equal_number,
  op_if, op_other,
}
use gezerah.State.{Definitions}
use gezerah.Graph.Infer.{
  OperandInference, infer_node, infer_uniform, infer_equal, infer_if, require_kinds,
}
use gezerah.Graph.Infer.Cases.{Arity, at_least, exactly, operation_shape}

-- The operations that evaluateExpression dispatches on the values of the operands.
abbrev pub is_dispatched : ExpressionOperation → Bool
is_dispatched op_literal = false
is_dispatched op_mechanic_reference = false
is_dispatched _ = true

pub fault-ne-nil : (c p m : String) → ◌≡◌ {A = ValidationErrors} (fault c p m) [] → ⊥
fault-ne-nil c p m h = cc

abbrev pub unsupported : String → ValidationErrors
unsupported path = fault "unsupported" (dotted path "operation") "unsupported expression operation"

module _ (literal : Option MechanicValue) (id : RulesId) (count : ℕ) (path : String)
    (operands : OperandInference) where
  uniform_inside :
      (arity : Arity) (expected : ValueKind)
      → operation_shape arity literal id count path
          ++ operands.errors
          ++ require_kinds expected path 0 operands.kinds
        ≡ []
      → operands.errors ≡ []
  uniform_inside arity expected h =
      (append-eq-nil _ operands.errors
        (append-eq-nil _ (require_kinds expected path 0 operands.kinds) h).0).1

  -- The errors of an operation with operands include those of the operands.
  pub infer_node-inside :
      (owner : MechanicDefinition) (definitions : Definitions) (op : ExpressionOperation)
      (deps : Map String)
      → is_dispatched op ≡ true
      → (infer_node owner definitions op literal id count path deps operands).errors ≡ []
      → operands.errors ≡ []
  unfolding infer_node infer_uniform infer_equal infer_if
  infer_node-inside owner definitions op_literal deps d h = absurd (ground (arith, d))
  infer_node-inside owner definitions op_mechanic_reference deps d h = absurd (ground (arith, d))
  infer_node-inside owner definitions op_add_number deps d h =
      uniform_inside (at_least 2) value_number h
  infer_node-inside owner definitions op_multiply_number deps d h =
      uniform_inside (at_least 2) value_number h
  infer_node-inside owner definitions op_min_number deps d h =
      uniform_inside (at_least 2) value_number h
  infer_node-inside owner definitions op_max_number deps d h =
      uniform_inside (at_least 2) value_number h
  infer_node-inside owner definitions op_subtract_number deps d h =
      uniform_inside (exactly 2) value_number h
  infer_node-inside owner definitions op_negate_number deps d h =
      uniform_inside (exactly 1) value_number h
  infer_node-inside owner definitions op_and deps d h = uniform_inside (at_least 2) value_boolean h
  infer_node-inside owner definitions op_or deps d h = uniform_inside (at_least 2) value_boolean h
  infer_node-inside owner definitions op_not deps d h = uniform_inside (exactly 1) value_boolean h
  infer_node-inside owner definitions op_less_number deps d h =
      uniform_inside (exactly 2) value_number h
  infer_node-inside owner definitions op_less_or_equal_number deps d h =
      uniform_inside (exactly 2) value_number h
  infer_node-inside owner definitions op_greater_number deps d h =
      uniform_inside (exactly 2) value_number h
  infer_node-inside owner definitions op_greater_or_equal_number deps d h =
      uniform_inside (exactly 2) value_number h
  infer_node-inside owner definitions op_equal deps d h =
      (append-eq-nil _ operands.errors (append-eq-nil _ _ h).0).1
  infer_node-inside owner definitions op_if deps d h =
      (append-eq-nil _ operands.errors (append-eq-nil _ _ (append-eq-nil _ _ h).0).0).1
  infer_node-inside owner definitions (op_other s) deps d h =
      (append-eq-nil (unsupported path) operands.errors h).1
