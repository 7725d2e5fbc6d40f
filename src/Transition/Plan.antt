-- ===== src/Transition/Plan.antt =====
-- ValidateRuntimeTransitionPlan and validateRuntimeEffectOperands of
-- internal/rules/runtime_transitions.go.
pub mod Operands
use Prim.Native.Nat.{ℕ, suc}
use Prim.Native.String.{String}
use mathlib.Core.Bool.{Bool, true, false, ◌&&◌, ◌||◌, not}
use mathlib.Core.List.{List, [], ◌∷◌, ◌++◌}
use mathlib.Core.Option.{Option, none, some}
use gezerah.Base.Tests.{◌==◌, string_eq, if◌then◌else◌}
use gezerah.Base.Int.{ℤ, pos, ltb_ℤ, int_eq}
use gezerah.Base.Lists.{length}
use gezerah.Base.Map.{Map, lookup, keys}
use gezerah.Base.Text.{indexed, keyed, dotted}
use gezerah.Base.Sort.{sort_texts}
use gezerah.Errors.{ValidationErrors, fault, fault_if}
use gezerah.Types.{
  RulesId, valid, Entity, SourceKind, source_input, source_derived, source_other, InlineStatus,
  StatusInstance, ConcreteEffect, effect_set, effect_adjust_number, effect_apply_status,
  effect_remove_status, effect_other, TransitionPlan,
}
use gezerah.Values.{is_some}
use gezerah.Definitions.{nest}
use gezerah.State.{Definitions}
use gezerah.Effects.{nonempty, validate_scalar_operand, scalar_allowed}
use gezerah.Statuses.{seen, complete_from}
unfoldable pub use gezerah.Transition.Plan.Operands.{
  validate_scalar_effect, validate_supplied_instance, each, validate_apply_effect,
  validate_remove_effect, validate_operands,
}

abbrev foreign_world : Option RulesId → RulesId → Bool
foreign_world none w = false
foreign_world (some target) w = not (w == target)

-- The check of one target that was not met before.
unfoldable pub validate_target : Map Entity → Option RulesId → String → RulesId → ValidationErrors
validate_target entities target path id = elim (lookup id entities) [
  | none ↦ fault "unknown_entity" path "effect target entity does not exist"
  | some e ↦
      fault_if (not (e.id == id)) "entity_id_mismatch" path "entity map key and entity ID differ"
      ++ fault_if (foreign_world target e.world_id) "cross_world_reference" path
          "effect target belongs to another world"
      ++ fault_if e.archived "archived_entity" path "archived entities cannot be changed"
]

-- The loop over the targets, with the IDs that were met.
unfoldable pub validate_targets :
    Map Entity → Option RulesId → String → ℕ → List RulesId → List RulesId → ValidationErrors
validate_targets entities target path index met [] = []
validate_targets entities target path index met (id ∷ ids) =
    let at = indexed (dotted path "entity_ids") index in
    (if seen id met
      then fault "duplicate" at "effect target entity is repeated"
      else validate_target entities target at id)
    ++ validate_targets entities target path (suc index) (id ∷ met) ids

-- One round of a loop over the instances of an effect, applied or removed: the errors, and the
-- instance IDs that the transition has named.
abbrev note_instance : RulesId → List RulesId → List RulesId
note_instance id met = if valid id then id ∷ met else met

unfoldable pub validate_named :
    List RulesId
    → (RulesId → String)
    → String
    → String
    → List RulesId
    → List (RulesId × RulesId)
    → ValidationErrors × List RulesId
validate_named targets at id_path repeated met [] = ([], met)
validate_named targets at id_path repeated met ((entity_id, id) ∷ rest) =
    let (errs, met') = validate_named targets at id_path repeated (note_instance id met) rest in
    (
      fault_if (not (seen entity_id targets)) "unexpected_status_instance" (at entity_id)
            "status instance entity is not an effect target"
          ++ fault_if (valid id && seen id met) "duplicate"
              (if id_path == "" then at entity_id else dotted (at entity_id) id_path) repeated
          ++ errs,
      met',
    )

-- sortedStatusInstanceEntityIDs, with the ID of the instance of each.
unfoldable pub supplied_ids : Map StatusInstance → List RulesId → List (RulesId × RulesId)
supplied_ids instances [] = []
supplied_ids instances (entity_id ∷ rest) = elim (lookup entity_id instances) [
  | none ↦ supplied_ids instances rest
  | some i ↦ (entity_id, i.id) ∷ supplied_ids instances rest
]

-- The two last parts of the loop over the effects.
unfoldable pub validate_lifecycle :
    ConcreteEffect
    → String
    → List RulesId
    → List RulesId
    → ValidationErrors × List RulesId × List RulesId
validate_lifecycle effect path applied removed = elim effect.operation [
  | effect_apply_status ↦
      let (errs, applied') =
        validate_named effect.entity_ids (keyed (dotted path "status_instances")) "id"
          "status instance ID is repeated across the transition" applied
          (supplied_ids effect.status_instances (sort_texts (keys effect.status_instances))) in
      (errs, applied', removed)
  | effect_remove_status ↦
      let (errs, removed') =
        validate_named effect.entity_ids (keyed (dotted path "status_instance_ids")) ""
          "status instance is removed more than once" removed effect.status_instance_ids in
      (errs, applied, removed')
  | effect_set ↦ ([], applied, removed)
  | effect_adjust_number ↦ ([], applied, removed)
  | effect_other s ↦ ([], applied, removed)
]

-- The checks on the ID and the position of an effect.
unfoldable pub validate_identity :
    ConcreteEffect → String → List RulesId → List ℤ → ValidationErrors
validate_identity effect path ids positions =
    fault_if (not (valid effect.id)) "required" (dotted path "id") "effect ID is required"
    ++ fault_if (seen effect.id ids) "duplicate" (dotted path "id") "effect ID is repeated"
    ++ fault_if (ltb_ℤ effect.position (pos 0)) "invalid_position" (dotted path "position")
        "effect position cannot be negative"
    ++ fault_if (seen effect.position positions) "duplicate" (dotted path "position")
        "effect position is repeated"

module _ (entities : Map Entity) (mechanics : Definitions) (statuses : Map InlineStatus) where
  -- The loop over the effects, with the sets that it fills.
  unfoldable pub validate_effects :
      ℕ
      → List RulesId
      → List ℤ
      → List RulesId
      → List RulesId
      → List ConcreteEffect
      → ValidationErrors
  validate_effects index ids positions applied removed [] = []
  validate_effects index ids positions applied removed (e ∷ es) =
      let path = indexed "effects" index in
      let (target, operand_errors) = validate_operands e path mechanics statuses in
      let (lifecycle_errors, applied', removed') = validate_lifecycle e path applied removed in
      validate_identity e path ids positions
      ++ operand_errors
      ++ validate_targets entities target path 0 [] e.entity_ids
      ++ lifecycle_errors
      ++ validate_effects (suc index) (e.id ∷ ids) (e.position ∷ positions) applied' removed' es

abbrev effect_positions : List ConcreteEffect → List ℤ
effect_positions [] = []
effect_positions (e ∷ es) = e.position ∷ effect_positions es

-- ValidateRuntimeTransitionPlan
unfoldable pub validate_plan :
    TransitionPlan → Map Entity → Definitions → Map InlineStatus → ValidationErrors
validate_plan plan entities mechanics statuses =
    validate_effects entities mechanics statuses 0 [] [] [] [] plan.effects
    ++ fault_if (not (complete_from (length plan.effects) 0 (effect_positions plan.effects)))
        "incomplete_positions" "effects" "effect positions must form a complete zero-based sequence"
