-- ===== src/Graph/Infer.antt =====
-- inferExpressionType, InferExpressionType, validateExpressionLiteral and
-- collectExpressionDependencies of internal/rules/expressions.go. The source fills the sets
-- `dependencies` and `dependencyPaths` in step; they are one map here, from each dependency to the
-- path where it was first recorded.
pub mod Cases
use Prim.Native.Nat.{ℕ, suc}
use Prim.Native.String.{String, ◌++◌ as join}
use mathlib.Core.Bool.{Bool, false, ◌&&◌, ◌||◌, not}
use mathlib.Core.List.{List, [], ◌∷◌, ◌++◌}
use mathlib.Core.Option.{Option, none, some}
use gezerah.Base.Tests.{◌==◌, nat_beq, ltb, string_eq, if◌then◌else◌}
use gezerah.Base.Map.{Map, lookup, insert, has}
use gezerah.Base.Text.{indexed, dotted, show_ℕ}
use gezerah.Errors.{ValidationErrors, fault, fault_if}
use gezerah.Types.{
  RulesId, valid, ValueKind, value_number, value_boolean, value_other, kind_eq, MechanicValue,
  MechanicDefinition, ExpressionOperation, op_literal, op_mechanic_reference, op_add_number,
  op_subtract_number, op_multiply_number, op_min_number, op_max_number, op_negate_number, op_and,
  op_or, op_not, op_equal, op_less_number, op_less_or_equal_number, op_greater_number,
  op_greater_or_equal_number, op_if, op_other, Expression, node, Operands, nil, cons,
}
use gezerah.Values.{is_some, valid_shape}
use gezerah.Definitions.{nest, valid_value_kind}
use gezerah.State.{Definitions}
use gezerah.Graph.Infer.Cases.{Arity, at_least, exactly}
pub use gezerah.Graph.Infer.Cases.{Inference, OperandInference, no_kind}
unfoldable pub use gezerah.Graph.Infer.Cases.{
  validate_literal, require_kinds, infer_literal, infer_reference, infer_uniform, infer_equal,
  infer_if,
}

abbrev pub count_operands : Operands → ℕ
count_operands nil = 0
count_operands (cons e es) = suc (count_operands es)

-- The switch, with the result for the operands, which only some cases look at.
unfoldable pub infer_node :
    MechanicDefinition
    → Definitions
    → ExpressionOperation
    → Option MechanicValue
    → RulesId
    → ℕ
    → String
    → Map String
    → OperandInference
    → Inference
infer_node owner definitions op literal id count path deps operands =
    let uniform = λ (arity : Arity) (expected result : ValueKind).
      infer_uniform arity expected result literal id count path operands in
    elim op [
      | op_literal ↦ infer_literal literal id count path deps
      | op_mechanic_reference ↦ infer_reference owner definitions literal id count path deps
      | op_add_number ↦ uniform (at_least 2) value_number value_number
      | op_multiply_number ↦ uniform (at_least 2) value_number value_number
      | op_min_number ↦ uniform (at_least 2) value_number value_number
      | op_max_number ↦ uniform (at_least 2) value_number value_number
      | op_subtract_number ↦ uniform (exactly 2) value_number value_number
      | op_negate_number ↦ uniform (exactly 1) value_number value_number
      | op_and ↦ uniform (at_least 2) value_boolean value_boolean
      | op_or ↦ uniform (at_least 2) value_boolean value_boolean
      | op_not ↦ uniform (exactly 1) value_boolean value_boolean
      | op_equal ↦ infer_equal literal id count path operands
      | op_less_number ↦ uniform (exactly 2) value_number value_boolean
      | op_less_or_equal_number ↦ uniform (exactly 2) value_number value_boolean
      | op_greater_number ↦ uniform (exactly 2) value_number value_boolean
      | op_greater_or_equal_number ↦ uniform (exactly 2) value_number value_boolean
      | op_if ↦ infer_if literal id count path operands
      | op_other s ↦ record {
        kind = no_kind;
        errors =
            fault "unsupported" (dotted path "operation") "unsupported expression operation"
            ++ operands.errors;
        deps = operands.deps;
      }
    ]

-- inferExpressionType, and its inferOperands.
unfoldable mutual
  pub infer : MechanicDefinition → Definitions → Expression → String → Map String → Inference
  infer owner definitions (node op literal id operands) path deps =
      infer_node owner definitions op literal id (count_operands operands) path deps
        (infer_operands owner definitions operands path 0 deps)

  pub infer_operands :
      MechanicDefinition → Definitions → Operands → String → ℕ → Map String → OperandInference
  infer_operands owner definitions nil path index deps = record {
    kinds = [];
    errors = [];
    deps = deps;
  }
  infer_operands owner definitions (cons e es) path index deps =
      let first = infer owner definitions e (indexed (dotted path "operands") index) deps in
      let rest = infer_operands owner definitions es path (suc index) first.deps in
      record {
        kinds = first.kind ∷ rest.kinds;
        errors = first.errors ++ rest.errors;
        deps = rest.deps;
      }

-- InferExpressionType
unfoldable pub infer_expression_type :
    Expression → MechanicDefinition → Definitions → ValueKind × ValidationErrors
infer_expression_type e owner definitions =
    let i = infer owner definitions e "expression" [] in (i.kind, i.errors)

abbrev pub add_id : RulesId → List RulesId → List RulesId
add_id id ids = id ∷ ids

-- collectExpressionDependencies; a set is the list of what was put in.
unfoldable mutual
  pub collect : Expression → List RulesId → List RulesId
  collect (node op literal id operands) found =
      collect_operands operands (elim op [
        | op_mechanic_reference ↦ if valid id then add_id id found else found
        | _ ↦ found
      ])

  pub collect_operands : Operands → List RulesId → List RulesId
  collect_operands nil found = found
  collect_operands (cons e es) found = collect_operands es (collect e found)
