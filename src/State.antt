-- ===== src/State.antt =====
-- internal/rules/logical_state.go: sparse overrides over authored defaults.
pub mod Normalize
pub mod Validity
use Prim.Native.String.{String}
use mathlib.Core.Bool.{Bool, true, false, ◌&&◌, not}
use mathlib.Core.List.{List, [], ◌∷◌, ◌++◌, map}
use mathlib.Core.Option.{Option, none, some}
use gezerah.Base.Tests.{◌==◌, string_eq, if◌then◌else◌}
use gezerah.Base.Int.{ℤ, pos, ltb_ℤ}
use gezerah.Base.Map.{Map, lookup, insert, keys}
use gezerah.Base.Text.{keyed, dotted}
use gezerah.Base.Sort.{sort_texts}
use gezerah.Errors.{ValidationError, ValidationErrors, fault, fault_if}
use gezerah.Types.{
  RulesId, MechanicValue, MechanicDefinition, Entity, SourceKind, source_input, source_derived,
  source_other, InputOverrideRecord, InputOverrideSnapshot, stored_override, authored_default,
  EvaluationPresence, LogicalInputValue, LogicalState,
}
use gezerah.Values.{clone_value, values_equal, validate_value}
use gezerah.Definitions.{nest}

abbrev pub Definitions : Type 0
Definitions = Map MechanicDefinition

abbrev pub is_derived : SourceKind → Bool
is_derived source_derived = true
is_derived source_input = false
is_derived (source_other s) = false

abbrev pub override_path : RulesId → String
override_path id = keyed "overrides" id

-- The body of the loop over the stored overrides.
unfoldable pub validate_override : Entity → Definitions → RulesId → MechanicValue → ValidationErrors
validate_override entity definitions id value = elim (lookup id definitions) [
  | none ↦ fault "unknown_mechanic" (override_path id) "mechanic definition does not exist"
  | some d ↦
      if not (d.world_id == entity.world_id)
      then fault "cross_world_reference" (override_path id) "mechanic belongs to another world"
      else if is_derived d.source_kind
      then fault "derived_mechanic_override" (override_path id)
          "derived mechanics cannot own stored overrides"
      else nest (override_path id) (validate_value d value)
        ++ fault_if (values_equal value d.default_value) "redundant_input_override"
            (override_path id) "stored overrides equal to the authored default must be removed"
]

unfoldable pub validate_overrides : Entity → Definitions → Map MechanicValue → ValidationErrors
validate_overrides entity definitions [] = []
validate_overrides entity definitions ((id, value) ∷ m) =
    validate_override entity definitions id value ++ validate_overrides entity definitions m

-- ValidateInputOverrideRecord
unfoldable pub validate_record : InputOverrideRecord → Entity → Definitions → ValidationErrors
validate_record r entity definitions =
    fault_if (not (r.entity_id == entity.id)) "entity_mismatch" "entity_id"
      "input override record does not belong to the supplied entity"
    ++ fault_if (ltb_ℤ r.revision (pos 0)) "invalid_revision" "revision"
        "logical state revision cannot be negative"
    ++ validate_overrides entity definitions r.overrides

-- ResolveLogicalInputValue
unfoldable pub resolve_input : InputOverrideRecord → MechanicDefinition → LogicalInputValue
resolve_input r d = elim (lookup d.id r.overrides) [
  | some v ↦ record { presence = stored_override; value = clone_value v }
  | none ↦ record { presence = authored_default; value = clone_value d.default_value }
]

abbrev is_default : EvaluationPresence → Bool
is_default authored_default = true
is_default _ = false

-- One round of the loop of MaterializeLogicalState.
unfoldable pub materialize_one :
    Entity → InputOverrideRecord → Definitions → LogicalState → RulesId → LogicalState
materialize_one entity r definitions state id = elim (lookup id definitions) [
  | none ↦ state
  | some d ↦
      let logical = resolve_input r d in
      if not (d.world_id == entity.world_id)
      then state
      else if is_derived d.source_kind
      then state
      else record state {
        input_values = insert id (clone_value logical.value) state.input_values;
        authored_default_input_mechanic_ids =
            if is_default logical.presence
            then state.authored_default_input_mechanic_ids ++ id ∷ []
            else state.authored_default_input_mechanic_ids;
      }
]

unfoldable pub materialize_all :
    Entity → InputOverrideRecord → Definitions → LogicalState → List RulesId → LogicalState
materialize_all entity r definitions state [] = state
materialize_all entity r definitions state (id ∷ ids) =
    materialize_all entity r definitions (materialize_one entity r definitions state id) ids

abbrev pub empty_state : Entity → InputOverrideRecord → LogicalState
empty_state entity r = record {
  entity_id = entity.id;
  revision = r.revision;
  input_values = [];
  authored_default_input_mechanic_ids = [];
}

-- MaterializeLogicalState
unfoldable pub materialize_state : Entity → InputOverrideRecord → Definitions → LogicalState
materialize_state entity r definitions =
    materialize_all entity r definitions (empty_state entity r) (sort_texts (keys definitions))

-- CloneInputOverrideRecord
abbrev pub clone_record : InputOverrideRecord → InputOverrideRecord
clone_record r = record r { overrides = map (λ (id, v). (id, clone_value v)) r.overrides }

-- The test under which a stored override is dropped.
unfoldable pub is_redundant : Definitions → RulesId → MechanicValue → Bool
is_redundant definitions id value = elim (lookup id definitions) [
  | none ↦ false
  | some d ↦ not (is_derived d.source_kind) && values_equal value d.default_value
]

-- The loop over the entries, each of which may be deleted.
unfoldable pub drop_redundant : Definitions → Map MechanicValue → Map MechanicValue
drop_redundant definitions [] = []
drop_redundant definitions ((id, v) ∷ m) =
    let rest = drop_redundant definitions m in
    if is_redundant definitions id v then rest else (id, v) ∷ rest

-- NormalizeInputOverrideRecord
unfoldable pub normalize_record : InputOverrideRecord → Definitions → InputOverrideRecord
normalize_record r definitions =
    let result = clone_record r in
    record result { overrides = drop_redundant definitions result.overrides }

-- CloneInputOverrideSnapshot
abbrev pub clone_snapshot : InputOverrideSnapshot → InputOverrideSnapshot
clone_snapshot s = record { by_entity = map (λ (id, r). (id, clone_record r)) s.by_entity }

-- The body of the loop over the records, and the loop.
unfoldable pub validate_entity_record :
    Map Entity → Definitions → RulesId → InputOverrideRecord → ValidationErrors
validate_entity_record entities definitions id r = elim (lookup id entities) [
  | none ↦
      fault "unknown_entity" (keyed "by_entity" id) "input override snapshot entity does not exist"
  | some entity ↦
      fault_if (not (r.entity_id == id)) "entity_mismatch"
        (dotted (keyed "by_entity" id) "entity_id")
        "map key and input override record entity differ"
      ++ map {A = ValidationError} (λ e. record e { path = dotted (keyed "by_entity" id) e.path })
          (validate_record r entity definitions)
]

unfoldable pub validate_records :
    Map Entity → Definitions → Map InputOverrideRecord → ValidationErrors
validate_records entities definitions [] = []
validate_records entities definitions ((id, r) ∷ m) =
    validate_entity_record entities definitions id r ++ validate_records entities definitions m

-- ValidateInputOverrideSnapshot
unfoldable pub validate_snapshot :
    InputOverrideSnapshot → Map Entity → Definitions → ValidationErrors
validate_snapshot s entities definitions = validate_records entities definitions s.by_entity
