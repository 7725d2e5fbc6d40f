-- ===== src/Types.antt =====
-- internal/rules/types.go, and the input types of internal/rules/logical_state.go. A Go string type
-- with named constants is a data type with a constructor for every other text. The timestamps of
-- entities and definitions are never read by the rules and are left out.
mod Expressions
pub use Expressions.*
use Prim.Native.Nat.{ℕ}
use Prim.Native.String.{String}
use mathlib.Core.Bool.{Bool, true, false, not}
use mathlib.Core.List.{List}
use mathlib.Core.Option.{Option}
use gezerah.Base.Tests.{◌==◌, string_eq, if◌then◌else◌}
use gezerah.Base.Int.{ℤ}
use gezerah.Base.Map.{Map}
use gezerah.Decimal.Parse.{Decimal}

pub data SourceKind : Type 0 where
  source_input source_derived : SourceKind
  source_other : String → SourceKind

pub data EffectOperation : Type 0 where
  effect_set effect_adjust_number effect_apply_status effect_remove_status : EffectOperation
  effect_other : String → EffectOperation

pub data ModifierOperation : Type 0 where
  modifier_set modifier_add_number modifier_multiply_number : ModifierOperation
  modifier_other : String → ModifierOperation

pub record Entity : Type 0 where
  pub id : RulesId
  pub world_id : RulesId
  pub display_name : String
  pub archived : Bool

pub record MechanicDefinition : Type 0 where
  pub id : RulesId
  pub world_id : RulesId
  pub source_kind : SourceKind
  pub value_kind : ValueKind
  pub default_value : MechanicValue
  pub expression : Option Expression
  pub minimum : Option Decimal
  pub maximum : Option Decimal
  pub step : Option Decimal
  pub mutable : Bool
  pub archived : Bool

pub record StatusModifier : Type 0 where
  pub id : RulesId
  pub position : ℤ
  pub priority : ℤ
  pub mechanic_id : RulesId
  pub operation : ModifierOperation
  pub value : MechanicValue

pub record InlineStatus : Type 0 where
  pub id : RulesId
  pub world_id : RulesId
  pub modifiers : List StatusModifier

pub record StatusInstance : Type 0 where
  pub id : RulesId
  pub world_id : RulesId
  pub entity_id : RulesId
  pub source_effect_id : RulesId
  pub applied_order : ℤ

pub record InputOverrideRecord : Type 0 where
  pub entity_id : RulesId
  pub revision : ℤ
  pub overrides : Map MechanicValue

pub record InputOverrideSnapshot : Type 0 where
  pub by_entity : Map InputOverrideRecord

pub record ScalarApplication : Type 0 where
  pub effect_id : RulesId
  pub entity_id : RulesId
  pub mechanic_id : RulesId
  pub before : MechanicValue
  pub after : MechanicValue
  pub changed : Bool

pub record ConcreteEffect : Type 0 where
  pub id : RulesId
  pub position : ℤ
  pub operation : EffectOperation
  pub entity_ids : List RulesId
  pub mechanic_id : RulesId
  pub value : Option MechanicValue
  pub adjustment_amount : Option Decimal
  pub inline_status : Option InlineStatus
  pub status_instance_ids : Map RulesId
  pub status_instances : Map StatusInstance

pub record TransitionPlan : Type 0 where
  pub effects : List ConcreteEffect

pub record StatusApplication : Type 0 where
  pub effect_id : RulesId
  pub entity_id : RulesId
  pub source_effect_id : RulesId
  pub status_instance_id : RulesId
  pub operation : EffectOperation
  pub changed : Bool

pub record RuntimeSnapshot : Type 0 where
  pub input_overrides : InputOverrideSnapshot
  pub status_instances : List StatusInstance

pub record RuntimeTransitionResult : Type 0 where
  pub scalar_applications : List ScalarApplication
  pub status_applications : List StatusApplication
  pub input_overrides : InputOverrideSnapshot
  pub status_instances : List StatusInstance
  pub changed_entity_ids : List RulesId

pub record AppliedModifier : Type 0 where
  pub status_instance_id : RulesId
  pub source_effect_id : RulesId
  pub modifier_id : RulesId
  pub priority : ℤ
  pub position : ℤ
  pub operation : ModifierOperation
  pub operand : MechanicValue
  pub before : MechanicValue
  pub after : MechanicValue

pub data EvaluationPresence : Type 0 where
  stored_override authored_default derived : EvaluationPresence

pub record EvaluatedMechanic : Type 0 where
  pub mechanic_id : RulesId
  pub source_kind : SourceKind
  pub presence : EvaluationPresence
  pub intrinsic : MechanicValue
  pub effective : MechanicValue
  pub expression : Option ExpressionTrace
  pub modifiers : List AppliedModifier

pub record EntityEvaluation : Type 0 where
  pub entity_id : RulesId
  pub revision : ℤ
  pub order : List RulesId
  pub values : Map EvaluatedMechanic

-- `definitions` is nil (`none`) unless the graph was compiled. `order` stands for the exported
-- Order and the private order, which CompileMechanicGraph fills alike and which no code writes.
pub record MechanicGraph : Type 0 where
  pub dependencies : Map (List RulesId)
  pub definitions : Option (Map MechanicDefinition)
  pub order : List RulesId

pub record LogicalInputValue : Type 0 where
  pub presence : EvaluationPresence
  pub value : MechanicValue

pub record LogicalState : Type 0 where
  pub entity_id : RulesId
  pub revision : ℤ
  pub input_values : Map MechanicValue
  pub authored_default_input_mechanic_ids : List RulesId
