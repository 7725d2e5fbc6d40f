-- ===== src/Types/Expressions.antt =====
-- IDs, scalar kinds and values, and expression trees of internal/rules/types.go.
use Prim.Native.String.{String}
use mathlib.Core.Bool.{Bool, true, false, not}
use mathlib.Core.Logic.{◌↔◌}
use mathlib.Core.Path.{◌≡◌, refl, ap}
use mathlib.Core.Option.{Option, none}
use text.Mathlib.TextEquality.{eq_iff}
use gezerah.Base.Tests.{◌==◌, string_eq, Eq}
use gezerah.Decimal.Parse.{Decimal}

abbrev pub RulesId : Type 0
RulesId = String

-- (ID).Valid
abbrev pub valid : RulesId → Bool
valid id = not (id == "")

pub data ValueKind : Type 0 where
  value_number value_boolean : ValueKind
  value_other : String → ValueKind

abbrev pub kind_beq : ValueKind → ValueKind → Bool
kind_beq value_number value_number = true
kind_beq value_boolean value_boolean = true
kind_beq (value_other s) (value_other t) = s == t
kind_beq value_number _ = false
kind_beq value_boolean _ = false
kind_beq (value_other s) _ = false

pub kind_beq_iff : (a b : ValueKind) → (kind_beq a b ≡ true) ↔ (a ≡ b)
kind_beq_iff value_number value_number = (λ _. refl, λ _. refl)
kind_beq_iff value_boolean value_boolean = (λ _. refl, λ _. refl)
kind_beq_iff (value_other s) (value_other t) =
    (λ h. ap value_other ((eq_iff s t).0 h), λ h. (eq_iff s t).1 (cc))
kind_beq_iff value_number value_boolean = (λ h. cc, λ h. cc)
kind_beq_iff value_number (value_other s) = (λ h. cc, λ h. cc)
kind_beq_iff value_boolean value_number = (λ h. cc, λ h. cc)
kind_beq_iff value_boolean (value_other s) = (λ h. cc, λ h. cc)
kind_beq_iff (value_other s) value_number = (λ h. cc, λ h. cc)
kind_beq_iff (value_other s) value_boolean = (λ h. cc, λ h. cc)

instance abbrev pub kind_eq : Eq ValueKind
kind_eq = record { equals = kind_beq; equals_law = kind_beq_iff }

-- The pointers of the source are never shared behind a clone: an option stands for each.
pub record MechanicValue : Type 0 where
  pub kind : ValueKind
  pub number : Option Decimal
  pub boolean : Option Bool

-- MechanicValue{}
abbrev pub zero_value : MechanicValue
zero_value = record { kind = value_other ""; number = none; boolean = none }

pub data ExpressionOperation : Type 0 where
  op_literal op_mechanic_reference : ExpressionOperation
  op_add_number op_subtract_number op_multiply_number op_min_number : ExpressionOperation
  op_max_number op_negate_number op_and op_or op_not op_equal : ExpressionOperation
  op_less_number op_less_or_equal_number op_greater_number : ExpressionOperation
  op_greater_or_equal_number op_if : ExpressionOperation
  op_other : String → ExpressionOperation

-- The Operation, Literal, MechanicID and Operands of a node.
mutual
  pub data Expression : Type 0 where
    node : ExpressionOperation → Option MechanicValue → RulesId → Operands → Expression

  pub data Operands : Type 0 where
    nil : Operands
    cons : Expression → Operands → Operands

-- The Operation, MechanicID, Literal, Operands and Value of a trace.
mutual
  pub data ExpressionTrace : Type 0 where
    trace :
        ExpressionOperation
        → RulesId
        → Option MechanicValue
        → Traces
        → MechanicValue
        → ExpressionTrace

  pub data Traces : Type 0 where
    no_traces : Traces
    more_traces : ExpressionTrace → Traces → Traces
