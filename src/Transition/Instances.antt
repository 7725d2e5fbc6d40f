-- ===== src/Transition/Instances.antt =====
-- ValidateRuntimeStatusInstances, findStatusInstanceID and nextAppliedOrder of
-- internal/rules/runtime_transitions.go.
use Prim.Native.Nat.{ℕ, suc, ◌+◌}
use Prim.Native.String.{String}
use mathlib.Core.Bool.{Bool, false, ◌&&◌}
use mathlib.Core.List.{List, [], ◌∷◌, ◌++◌}
use mathlib.Core.Option.{Option, none, some, get_or}
use gezerah.Base.Tests.{◌==◌, string_eq, if◌then◌else◌}
use gezerah.Base.Int.{ℤ, pos, pos_part, ltb_ℤ, int_eq}
use gezerah.Base.Map.{Map, lookup, insert, keys}
use gezerah.Base.Text.{indexed, keyed, dotted}
use gezerah.Base.Sort.{sort_texts}
use gezerah.Errors.{ValidationErrors, fault, fault_if, Result, ok, err, plain}
use gezerah.Types.{RulesId, Entity, InlineStatus, StatusInstance}
use gezerah.Definitions.{nest}
use gezerah.Statuses.{seen, validate_status_instances}

-- Entity{}
abbrev pub zero_entity : Entity
zero_entity = record { id = ""; world_id = ""; display_name = ""; archived = false }

-- m[k], with the zero value for a missing key.
abbrev pub at_or {ℓ} : {V : Type ℓ} → Map V → String → V → V
at_or m k v = get_or (lookup k m) v

-- The first loop: the errors of each instance.
unfoldable pub validate_globals :
    Map Entity → ℕ → List RulesId → List StatusInstance → ValidationErrors
validate_globals entities index ids [] = []
validate_globals entities index ids (i ∷ is) =
    let path = indexed "active_status_instances" index in
    fault_if (seen i.id ids) "duplicate" (dotted path "id") "status instance ID is repeated"
    ++ elim (lookup i.entity_id entities) [
      | none ↦
          fault "unknown_entity" (dotted path "entity_id") "status instance entity does not exist"
      | some e ↦ []
    ]
    ++ validate_globals entities (suc index) (i.id ∷ ids) is

-- The first loop: the instances grouped by the ID of their entity.
unfoldable pub group_instances :
    Map Entity → Map (List StatusInstance) → List StatusInstance → Map (List StatusInstance)
group_instances entities groups [] = groups
group_instances entities groups (i ∷ is) =
    group_instances entities
      (elim (lookup i.entity_id entities) [
        | none ↦ groups
        | some e ↦ insert e.id (at_or groups e.id [] ++ i ∷ []) groups
      ])
      is

-- The last loop, over the sorted IDs of the groups.
unfoldable pub validate_groups :
    Map Entity → Map InlineStatus → Map (List StatusInstance) → List RulesId → ValidationErrors
validate_groups entities statuses groups [] = []
validate_groups entities statuses groups (id ∷ ids) =
    nest (keyed "entities" id)
      (validate_status_instances (at_or entities id zero_entity) statuses (at_or groups id []))
    ++ validate_groups entities statuses groups ids

-- ValidateRuntimeStatusInstances
unfoldable pub validate_runtime_instances :
    List StatusInstance → Map Entity → Map InlineStatus → ValidationErrors
validate_runtime_instances instances entities statuses =
    let groups = group_instances entities [] instances in
    validate_globals entities 0 [] instances
    ++ validate_groups entities statuses groups (sort_texts (keys groups))

abbrev pub matches_instance : RulesId → RulesId → StatusInstance → Bool
matches_instance entity_id id i = i.entity_id == entity_id && i.id == id

-- findStatusInstanceID; `none` is -1.
unfoldable pub find_instance : List StatusInstance → RulesId → RulesId → Option ℕ
find_instance [] entity_id id = none
find_instance (i ∷ is) entity_id id =
    if matches_instance entity_id id i
    then some 0
    else elim (find_instance is entity_id id) [ none ↦ none | some n ↦ some (suc n) ]

-- The largest applied order of the entity, and at least `maximum`.
unfoldable pub max_order : ℤ → List StatusInstance → RulesId → ℤ
max_order maximum [] entity_id = maximum
max_order maximum (i ∷ is) entity_id =
    max_order
      (if i.entity_id == entity_id && ltb_ℤ maximum i.applied_order
        then i.applied_order
        else maximum)
      is entity_id

-- math.MaxInt64
abbrev pub max_int64 : ℤ
max_int64 = pos 9223372036854775807

-- nextAppliedOrder
unfoldable pub next_applied_order : List StatusInstance → RulesId → Result ℤ
next_applied_order instances entity_id =
    let maximum = max_order (pos 0) instances entity_id in
    if maximum == max_int64
    then err (plain "status instance applied order is exhausted")
    else ok (pos (pos_part maximum + 1))
