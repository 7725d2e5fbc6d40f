-- ===== src/Statuses.antt =====
-- internal/rules/statuses.go: the checks on inline statuses and on active status instances.
use Prim.Native.Nat.{ℕ, zero, suc}
use Prim.Native.String.{String}
use mathlib.Core.Bool.{Bool, true, false, ◌&&◌, ◌||◌, not}
use mathlib.Core.List.{List, [], ◌∷◌, ◌++◌}
use mathlib.Core.Option.{none, some}
use gezerah.Base.Tests.{◌==◌, string_eq, if◌then◌else◌, Eq}
use gezerah.Base.Int.{ℤ, pos, ltb_ℤ, int_eq}
use gezerah.Base.Lists.{length}
use gezerah.Base.Map.{Map, lookup, keys}
use gezerah.Base.Text.{indexed, keyed, dotted}
use gezerah.Base.Sort.{sort_texts}
use gezerah.Errors.{ValidationErrors, fault, fault_if}
use gezerah.Types.{
  RulesId, valid, value_number, kind_eq, MechanicDefinition, Entity, modifier_set,
  modifier_add_number, modifier_multiply_number, modifier_other, StatusModifier, InlineStatus,
  StatusInstance,
}
use gezerah.Values.{valid_shape}
use gezerah.Definitions.{nest}
use gezerah.State.{Definitions}

-- A Go set, `map[K]struct{}`, as the list of what was put in.
module _ {ℓ} {A : Type ℓ} ⦃e : Eq A⦄ where
  unfoldable pub seen : A → List A → Bool
  seen a [] = false
  seen a (x ∷ xs) = if x == a then true else seen a xs

-- validateStatusModifier
unfoldable pub validate_modifier : StatusModifier → MechanicDefinition → ValidationErrors
validate_modifier m d =
    if not (valid_shape m.value)
    then fault "invalid_typed_value" "value"
        "modifier requires exactly one literal number or boolean value"
    else elim m.operation [
      | modifier_set ↦
          fault_if (not (m.value.kind == d.value_kind)) "value_kind_mismatch" "value.kind"
            "set modifier value kind does not match its mechanic"
      | modifier_add_number ↦
          fault_if (not (d.value_kind == value_number) || not (m.value.kind == value_number))
            "value_kind_mismatch" "value.kind"
            "numeric modifier requires a numeric mechanic and operand"
      | modifier_multiply_number ↦
          fault_if (not (d.value_kind == value_number) || not (m.value.kind == value_number))
            "value_kind_mismatch" "value.kind"
            "numeric modifier requires a numeric mechanic and operand"
      | modifier_other s ↦ fault "unsupported" "operation" "unsupported modifier operation"
    ]

-- The part of the loop that looks at the modified mechanic.
unfoldable pub validate_modifier_target :
    Definitions → RulesId → String → StatusModifier → ValidationErrors
validate_modifier_target mechanics world_id path m = elim (lookup m.mechanic_id mechanics) [
  | none ↦ fault "unknown_mechanic" (dotted path "mechanic_id") "modifier mechanic does not exist"
  | some d ↦
      fault_if (not (d.id == m.mechanic_id)) "mechanic_id_mismatch" (dotted path "mechanic_id")
        "mechanic map key and definition ID differ"
      ++ fault_if (not (d.world_id == world_id)) "cross_world_reference" (dotted path "mechanic_id")
          "status and modified mechanic belong to different worlds"
      ++ fault_if d.archived "archived_dependency" (dotted path "mechanic_id")
          "status modifiers cannot target archived Mechanics"
      ++ nest path (validate_modifier m d)
]

-- The loop over the modifiers, with the IDs and the positions that were met.
unfoldable pub validate_modifiers :
    Definitions → RulesId → ℕ → List RulesId → List ℤ → List StatusModifier → ValidationErrors
validate_modifiers mechanics world_id index ids positions [] = []
validate_modifiers mechanics world_id index ids positions (m ∷ ms) =
    let path = indexed "modifiers" index in
    fault_if (not (valid m.id)) "required" (dotted path "id") "modifier ID is required"
    ++ fault_if (seen m.id ids) "duplicate" (dotted path "id") "modifier ID is repeated"
    ++ fault_if (ltb_ℤ m.position (pos 0)) "invalid_position" (dotted path "position")
        "modifier position cannot be negative"
    ++ fault_if (seen m.position positions) "duplicate" (dotted path "position")
        "modifier position is repeated"
    ++ validate_modifier_target mechanics world_id path m
    ++ validate_modifiers mechanics world_id (suc index) (m.id ∷ ids) (m.position ∷ positions) ms

-- `for position := 0; position < count; position++`, from `start`, until one is missing.
unfoldable pub complete_from : ℕ → ℕ → List ℤ → Bool
complete_from zero start positions = true
complete_from (suc left) start positions =
    seen (pos start) positions && complete_from left (suc start) positions

abbrev modifier_positions : List StatusModifier → List ℤ
modifier_positions [] = []
modifier_positions (m ∷ ms) = m.position ∷ modifier_positions ms

-- ValidateInlineStatus
unfoldable pub validate_inline_status : InlineStatus → Definitions → ValidationErrors
validate_inline_status s mechanics =
    fault_if (not (valid s.id)) "required" "id" "inline status source Effect ID is required"
    ++ fault_if (not (valid s.world_id)) "required" "world_id" "inline status World ID is required"
    ++ validate_modifiers mechanics s.world_id 0 [] [] s.modifiers
    ++ fault_if (not (complete_from (length s.modifiers) 0 (modifier_positions s.modifiers)))
        "incomplete_positions" "modifiers"
        "modifier positions must form a complete zero-based sequence"

unfoldable pub validate_status_ids :
    Map InlineStatus → Definitions → List RulesId → ValidationErrors
validate_status_ids statuses mechanics [] = []
validate_status_ids statuses mechanics (id ∷ ids) =
    elim (lookup id statuses) [
      | none ↦ []
      | some s ↦
          fault_if (not (s.id == id)) "status_id_mismatch" (dotted (keyed "statuses" id) "id")
            "status map key and inline-status source Effect ID differ"
          ++ nest (keyed "statuses" id) (validate_inline_status s mechanics)
    ]
    ++ validate_status_ids statuses mechanics ids

-- ValidateInlineStatuses
unfoldable pub validate_inline_statuses : Map InlineStatus → Definitions → ValidationErrors
validate_inline_statuses statuses mechanics =
    validate_status_ids statuses mechanics (sort_texts (keys statuses))

-- The part of the loop that looks at the source status.
unfoldable pub validate_source :
    Map InlineStatus → String → List RulesId → StatusInstance → ValidationErrors
validate_source statuses path sources i = elim (lookup i.source_effect_id statuses) [
  | none ↦
      fault "unknown_status" (dotted path "source_effect_id")
        "status instance source Inline status does not exist"
  | some s ↦
      fault_if (not (s.id == i.source_effect_id)) "status_id_mismatch"
        (dotted path "source_effect_id") "status map key and inline-status source Effect ID differ"
      ++ fault_if (not (s.world_id == i.world_id)) "cross_world_reference"
          (dotted path "source_effect_id")
          "Status instance and Inline status belong to different Worlds"
      ++ fault_if (seen i.source_effect_id sources) "duplicate_status_instance"
          (dotted path "source_effect_id")
          "only one instance from a source effect may be active on an entity"
]

abbrev add_source : Map InlineStatus → RulesId → List RulesId → List RulesId
add_source statuses id sources = elim (lookup id statuses) [
  | none ↦ sources
  | some s ↦ id ∷ sources
]

-- The loop over the instances of one entity.
unfoldable pub validate_instances :
    Entity
    → Map InlineStatus
    → ℕ
    → List RulesId
    → List RulesId
    → List StatusInstance
    → ValidationErrors
validate_instances entity statuses index ids sources [] = []
validate_instances entity statuses index ids sources (i ∷ is) =
    let path = indexed "active_status_instances" index in
    fault_if (not (valid i.id)) "required" (dotted path "id") "status instance ID is required"
    ++ fault_if (seen i.id ids) "duplicate" (dotted path "id") "status instance ID is repeated"
    ++ fault_if (not (i.entity_id == entity.id)) "entity_mismatch" (dotted path "entity_id")
        "status instance does not belong to the evaluated entity"
    ++ fault_if (not (i.world_id == entity.world_id)) "cross_world_reference"
        (dotted path "world_id") "status instance and entity belong to different worlds"
    ++ fault_if (ltb_ℤ i.applied_order (pos 0)) "invalid_position" (dotted path "applied_order")
        "status instance applied order cannot be negative"
    ++ validate_source statuses path sources i
    ++ validate_instances entity statuses (suc index) (i.id ∷ ids)
        (add_source statuses i.source_effect_id sources) is

-- ValidateStatusInstances
unfoldable pub validate_status_instances :
    Entity → Map InlineStatus → List StatusInstance → ValidationErrors
validate_status_instances entity statuses instances =
    validate_instances entity statuses 0 [] [] instances
