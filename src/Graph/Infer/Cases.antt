-- ===== src/Graph/Infer/Cases.antt =====
-- The cases of inferExpressionType and validateExpressionLiteral of internal/rules/expressions.go,
-- over the results for the operands.
use Prim.Native.Nat.{ℕ, suc}
use Prim.Native.String.{String, ◌++◌ as join}
use mathlib.Core.Bool.{Bool, false, ◌&&◌, ◌||◌, not}
use mathlib.Core.List.{List, [], ◌∷◌, ◌++◌}
use mathlib.Core.Option.{Option, none, some}
use gezerah.Base.Tests.{◌==◌, nat_beq, ltb, string_eq, if◌then◌else◌}
use gezerah.Base.Map.{Map, lookup, insert, has}
use gezerah.Base.Text.{indexed, dotted, show_ℕ}
use gezerah.Errors.{ValidationErrors, fault, fault_if}
use gezerah.Types.{
  RulesId, valid, ValueKind, value_number, value_boolean, value_other, kind_eq, MechanicValue,
  MechanicDefinition,
}
use gezerah.Values.{is_some, valid_shape}
use gezerah.Definitions.{nest, valid_value_kind}
use gezerah.State.{Definitions}

-- The inferred kind, the errors, and the dependencies with their paths. No kind is `value_other ""`.
pub record Inference : Type 0 where
  pub kind : ValueKind
  pub errors : ValidationErrors
  pub deps : Map String

pub record OperandInference : Type 0 where
  pub kinds : List ValueKind
  pub errors : ValidationErrors
  pub deps : Map String

abbrev pub no_kind : ValueKind
no_kind = value_other ""

-- validateExpressionLiteral
unfoldable pub validate_literal : MechanicValue → ValidationErrors
validate_literal v =
    fault_if (not (valid_value_kind v.kind) || not (valid_shape v)) "invalid_typed_value" ""
      "literal must contain exactly one number or boolean value"

-- The number of operands that an operation takes: at least so many, or exactly so many.
pub data Arity : Type 0 where
  at_least exactly : ℕ → Arity

abbrev pub arity_fits : Arity → ℕ → Bool
arity_fits (at_least n) count = not (ltb count n)
arity_fits (exactly n) count = nat_beq count n

pub arity_text : Arity → String
arity_text (at_least n) = join (join "operation requires at least " (show_ℕ n)) " operands"
arity_text (exactly n) = join (join "operation requires exactly " (show_ℕ n)) " operands"

-- requireNoLiteral
abbrev pub forbid_literal : Option MechanicValue → String → ValidationErrors
forbid_literal literal path =
    fault_if (is_some literal) "invalid_expression_shape" (dotted path "literal")
      "operation cannot declare a literal"

-- requireNoReference
abbrev pub forbid_reference : RulesId → String → ValidationErrors
forbid_reference id path =
    fault_if (valid id) "invalid_expression_shape" (dotted path "mechanic_id")
      "operation cannot declare a mechanic reference"

-- requireArity
abbrev pub require_arity : Arity → ℕ → String → ValidationErrors
require_arity arity count path =
    fault_if (not (arity_fits arity count)) "invalid_expression_arity" (dotted path "operands")
      (arity_text arity)

pub kind_message : ValueKind → String
kind_message value_number = "operand must be number"
kind_message value_boolean = "operand must be boolean"
kind_message (value_other s) = join "operand must be " s

-- requireOperandKinds
unfoldable pub require_kinds : ValueKind → String → ℕ → List ValueKind → ValidationErrors
require_kinds expected path index [] = []
require_kinds expected path index (k ∷ ks) =
    fault_if (valid_value_kind k && not (k == expected)) "expression_type_mismatch"
      (indexed (dotted path "operands") index) (kind_message expected)
    ++ require_kinds expected path (suc index) ks

-- The case of a literal.
unfoldable pub infer_literal : Option MechanicValue → RulesId → ℕ → String → Map String → Inference
infer_literal literal id count path deps =
    let shape = forbid_reference id path ++ require_arity (exactly 0) count path in
    elim literal [
      | none ↦ record {
        kind = no_kind;
        errors =
            shape
            ++ fault "required" (dotted path "literal") "literal operation requires a typed scalar";
        deps = deps;
      }
      | some v ↦ record {
        kind = if valid_shape v then v.kind else no_kind;
        errors = shape ++ nest (dotted path "literal") (validate_literal v);
        deps = deps;
      }
    ]

abbrev record_dependency : RulesId → String → Map String → Map String
record_dependency id path deps = if has id deps then deps else insert id path deps

-- The case of a reference.
unfoldable pub infer_reference :
    MechanicDefinition
    → Definitions
    → Option MechanicValue
    → RulesId
    → ℕ
    → String
    → Map String
    → Inference
infer_reference owner definitions literal id count path deps =
    let shape = forbid_literal literal path ++ require_arity (exactly 0) count path in
    let at = dotted path "mechanic_id" in
    if not (valid id)
    then record {
      kind = no_kind;
      errors = shape ++ fault "required" at "mechanic reference requires an ID";
      deps = deps;
    }
    else elim (lookup id definitions) [
      | none ↦ record {
        kind = no_kind;
        errors = shape ++ fault "unknown_mechanic" at "referenced mechanic does not exist";
        deps = deps;
      }
      | some d ↦ record {
        kind = d.value_kind;
        errors =
            shape
            ++ fault_if (not (d.id == id)) "mechanic_id_mismatch" at
                "mechanic map key and definition ID differ"
            ++ fault_if (not (d.world_id == owner.world_id)) "cross_world_reference" at
                "derived expression references a mechanic in another world"
            ++ fault_if (not owner.archived && d.archived) "archived_dependency" at
                "active derived mechanics cannot reference archived mechanics";
        deps = if d.world_id == owner.world_id then record_dependency id at deps else deps;
      }
    ]

-- The errors of the shape of an operation with operands.
abbrev pub operation_shape : Arity → Option MechanicValue → RulesId → ℕ → String → ValidationErrors
operation_shape arity literal id count path =
    forbid_literal literal path ++ forbid_reference id path ++ require_arity arity count path

-- The cases in which all operands have one kind.
unfoldable pub infer_uniform :
    Arity
    → ValueKind
    → ValueKind
    → Option MechanicValue
    → RulesId
    → ℕ
    → String
    → OperandInference
    → Inference
infer_uniform arity expected result literal id count path operands = record {
  kind = result;
  errors =
      operation_shape arity literal id count path
      ++ operands.errors
      ++ require_kinds expected path 0 operands.kinds;
  deps = operands.deps;
}

abbrev pub kinds_clash : ValueKind → ValueKind → Bool
kinds_clash a b = valid_value_kind a && valid_value_kind b && not (a == b)

abbrev pub equal_clash : List ValueKind → Bool
equal_clash (a ∷ b ∷ []) = kinds_clash a b
equal_clash [] = false
equal_clash (a ∷ []) = false
equal_clash (a ∷ b ∷ c ∷ ks) = false

-- The case of ExpressionEqual.
unfoldable pub infer_equal :
    Option MechanicValue → RulesId → ℕ → String → OperandInference → Inference
infer_equal literal id count path operands = record {
  kind = value_boolean;
  errors =
      operation_shape (exactly 2) literal id count path
      ++ operands.errors
      ++ fault_if (equal_clash operands.kinds) "expression_type_mismatch"
          (indexed (dotted path "operands") 1) "equal operands must have the same scalar kind";
  deps = operands.deps;
}

abbrev pub bad_condition : List ValueKind → Bool
bad_condition [] = false
bad_condition (c ∷ ks) = valid_value_kind c && not (c == value_boolean)

abbrev pub branch_clash : List ValueKind → Bool
branch_clash (c ∷ a ∷ b ∷ []) = kinds_clash a b
branch_clash [] = false
branch_clash (c ∷ []) = false
branch_clash (c ∷ a ∷ []) = false
branch_clash (c ∷ a ∷ b ∷ d ∷ ks) = false

abbrev pub branch_kind : List ValueKind → ValueKind
branch_kind (c ∷ a ∷ ks) = a
branch_kind [] = no_kind
branch_kind (c ∷ []) = no_kind

-- The case of ExpressionIf.
unfoldable pub infer_if : Option MechanicValue → RulesId → ℕ → String → OperandInference → Inference
infer_if literal id count path operands = record {
  kind = branch_kind operands.kinds;
  errors =
      operation_shape (exactly 3) literal id count path
      ++ operands.errors
      ++ fault_if (bad_condition operands.kinds) "expression_type_mismatch"
          (indexed (dotted path "operands") 0) "if condition must be boolean"
      ++ fault_if (branch_clash operands.kinds) "expression_type_mismatch"
          (indexed (dotted path "operands") 2) "if branches must have the same scalar kind";
  deps = operands.deps;
}
