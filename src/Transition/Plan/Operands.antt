-- ===== src/Transition/Plan/Operands.antt =====
-- validateRuntimeEffectOperands of internal/rules/runtime_transitions.go: one case for each kind of
-- effect.
use Prim.Native.String.{String}
use mathlib.Core.Bool.{Bool, true, false, ◌||◌, not}
use mathlib.Core.List.{List, [], ◌∷◌, ◌++◌}
use mathlib.Core.Option.{Option, none, some}
use gezerah.Base.Tests.{◌==◌, string_eq}
use gezerah.Base.Int.{pos, ltb_ℤ, int_eq}
use gezerah.Base.Map.{Map, lookup}
use gezerah.Base.Text.{keyed, dotted}
use gezerah.Errors.{ValidationErrors, fault, fault_if}
use gezerah.Types.{
  RulesId, valid, SourceKind, source_input, source_derived, source_other, InlineStatus,
  ConcreteEffect, effect_set, effect_adjust_number, effect_apply_status, effect_remove_status,
  effect_other,
}
use gezerah.Values.{is_some}
use gezerah.Definitions.{nest}
use gezerah.State.{Definitions}
use gezerah.Effects.{nonempty, validate_scalar_operand, scalar_allowed}

abbrev is_input : SourceKind → Bool
is_input source_input = true
is_input source_derived = false
is_input (source_other s) = false

-- The case of a scalar effect. The first part of the result is the world of the target, if known.
unfoldable pub validate_scalar_effect :
    ConcreteEffect → String → Definitions → Option RulesId × ValidationErrors
validate_scalar_effect effect path mechanics =
    let operands =
      fault_if
        (is_some effect.inline_status
          || nonempty effect.status_instances
          || nonempty effect.status_instance_ids)
        "invalid_effect_operand" path "scalar effects cannot declare status operands" in
    elim (lookup effect.mechanic_id mechanics) [
      | none ↦ (
        none,
        operands
            ++ fault "unknown_mechanic" (dotted path "mechanic_id")
                "effect mechanic does not exist",
      )
      | some d ↦ (
        some d.world_id,
        operands
            ++ fault_if (not (d.id == effect.mechanic_id)) "mechanic_id_mismatch"
                (dotted path "mechanic_id") "mechanic map key and definition ID differ"
            ++ fault_if d.archived "archived_mechanic" (dotted path "mechanic_id")
                "archived mechanics cannot be changed"
            ++ fault_if (not (is_input d.source_kind)) "derived_mechanic"
                (dotted path "mechanic_id") "derived mechanics cannot be directly changed"
            ++ fault_if (not d.mutable) "mechanic_not_mutable" (dotted path "mechanic_id")
                "mechanic is not mutable during play"
            ++ fault_if (not (scalar_allowed effect.operation d)) "operation_not_allowed"
                (dotted path "operation") "operation is not allowed for the mechanic"
            ++ nest path (validate_scalar_operand effect d),
      )
    ]

-- The check of the instance that is given for one target of an apply-status effect.
unfoldable pub validate_supplied_instance :
    ConcreteEffect → String → InlineStatus → RulesId → ValidationErrors
validate_supplied_instance effect path status entity_id =
    let at = keyed (dotted path "status_instances") entity_id in
    elim (lookup entity_id effect.status_instances) [
      | none ↦
          fault "required" at "apply-status requires a preassigned instance for every target entity"
      | some i ↦
          fault_if (not (valid i.id)) "required" (dotted at "id") "status instance ID is required"
          ++ fault_if (not (i.entity_id == entity_id)) "entity_mismatch" (dotted at "entity_id")
              "status instance does not belong to its target entity"
          ++ fault_if (not (i.world_id == status.world_id)) "cross_world_reference"
              (dotted at "world_id") "status instance and inline status belong to different worlds"
          ++ fault_if (not (i.source_effect_id == status.id)) "status_id_mismatch"
              (dotted at "source_effect_id") "status instance references a different source effect"
          ++ fault_if (ltb_ℤ i.applied_order (pos 0)) "invalid_position" (dotted at "applied_order")
              "status applied order cannot be negative"
    ]

-- The errors of a loop over IDs whose rounds are independent.
unfoldable pub each : (RulesId → ValidationErrors) → List RulesId → ValidationErrors
each check [] = []
each check (id ∷ ids) = check id ++ each check ids

abbrev configured : Map InlineStatus → RulesId → RulesId → Bool
configured statuses effect_id id = elim (lookup effect_id statuses) [
  | none ↦ false
  | some s ↦ s.id == id
]

-- The case of an apply-status effect.
unfoldable pub validate_apply_effect :
    ConcreteEffect → String → Map InlineStatus → Option RulesId × ValidationErrors
validate_apply_effect effect path statuses =
    let operands =
      fault_if
        (valid effect.mechanic_id
          || is_some effect.value
          || is_some effect.adjustment_amount
          || nonempty effect.status_instance_ids)
        "invalid_effect_operand" path "apply-status cannot declare scalar or removal operands" in
    elim effect.inline_status [
      | none ↦ (
        none,
        operands
            ++ fault "required" (dotted path "status") "apply-status requires an Inline status",
      )
      | some s ↦ (
        some s.world_id,
        operands
            ++ fault_if (not (s.id == effect.id)) "status_id_mismatch" (dotted path "status.id")
                "inline status ID must equal its owning effect ID"
            ++ fault_if (not (configured statuses effect.id s.id)) "unknown_status"
                (dotted path "status") "Inline status is missing from the transition configuration"
            ++ each (validate_supplied_instance effect path s) effect.entity_ids,
      )
    ]

abbrev names_instance : ConcreteEffect → RulesId → Bool
names_instance effect entity_id = elim (lookup entity_id effect.status_instance_ids) [
  | none ↦ false
  | some id ↦ valid id
]

-- The case of a remove-status effect.
unfoldable pub validate_remove_effect : ConcreteEffect → String → Option RulesId × ValidationErrors
validate_remove_effect effect path = (
  none,
  fault_if
        (valid effect.mechanic_id
          || is_some effect.value
          || is_some effect.adjustment_amount
          || is_some effect.inline_status
          || nonempty effect.status_instances)
        "invalid_effect_operand" path "remove-status can declare only exact status-instance targets"
      ++ each
          (λ id.
            fault_if (not (names_instance effect id)) "required"
              (keyed (dotted path "status_instance_ids") id)
              "remove-status requires a Status instance for every target Entity")
          effect.entity_ids,
)

-- validateRuntimeEffectOperands
unfoldable pub validate_operands :
    ConcreteEffect → String → Definitions → Map InlineStatus → Option RulesId × ValidationErrors
validate_operands effect path mechanics statuses = elim effect.operation [
  | effect_set ↦ validate_scalar_effect effect path mechanics
  | effect_adjust_number ↦ validate_scalar_effect effect path mechanics
  | effect_apply_status ↦ validate_apply_effect effect path statuses
  | effect_remove_status ↦ validate_remove_effect effect path
  | effect_other s ↦
      (none, fault "unsupported" (dotted path "operation") "unsupported effect operation")
]
