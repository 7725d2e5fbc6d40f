-- ===== src/Transition/Run.antt =====
-- ApplyRuntimeTransition of internal/rules/runtime_transitions.go.
use mathlib.Core.Bool.{Bool}
use mathlib.Core.List.{List, [], ◌∷◌}
use mathlib.Core.Option.{none, some}
use gezerah.Base.Tests.{◌==◌, string_eq, if◌then◌else◌}
use gezerah.Base.Int.{ltb_ℤ, int_eq}
use gezerah.Base.Map.{Map, has}
use gezerah.Base.Text.{text_ltb, keyed}
use gezerah.Base.Sort.{sort, sort_texts}
use gezerah.Errors.{
  ValidationErrors, fault, Result, ok, err, ◌>>=◌, ◌>>◌, require_valid, out_of_fuel,
  err_invalid_definition, err_invalid_transition, err_invalid_runtime_snapshot,
}
use gezerah.Types.{
  RulesId, Entity, InlineStatus, StatusInstance, ConcreteEffect, InputOverrideRecord,
  TransitionPlan, RuntimeSnapshot, RuntimeTransitionResult,
}
use gezerah.State.{Definitions, clone_snapshot, validate_snapshot}
use gezerah.Statuses.{validate_inline_statuses}
use gezerah.Graph.Compile.{validate_graph}
use gezerah.Transition.Plan.{validate_plan}
use gezerah.Transition.Instances.{validate_runtime_instances}
use gezerah.Transition.Apply.{Working, apply_effects}

-- The loop that looks for a target with no record; only the first one is reported.
unfoldable pub missing_targets : Map InputOverrideRecord → List RulesId → ValidationErrors
missing_targets records [] = []
missing_targets records (id ∷ ids) =
    if has id records
    then missing_targets records ids
    else fault "missing_input_override_record" (keyed "by_entity" id)
        "effect target input override record is absent from the runtime snapshot"

abbrev first_found : ValidationErrors → ValidationErrors → ValidationErrors
first_found [] rest = rest
first_found (e ∷ es) rest = e ∷ es

unfoldable pub missing_records : Map InputOverrideRecord → List ConcreteEffect → ValidationErrors
missing_records records [] = []
missing_records records (e ∷ es) =
    first_found (missing_targets records e.entity_ids) (missing_records records es)

-- sort.SliceStable by position
unfoldable pub sort_effects : List ConcreteEffect → List ConcreteEffect
sort_effects = sort (λ a b. ltb_ℤ a.position b.position)

-- The order of the resulting instances: entity, applied order, instance.
unfoldable pub instance_before : StatusInstance → StatusInstance → Bool
instance_before a b =
    if a.entity_id == b.entity_id
    then (if a.applied_order == b.applied_order
        then text_ltb a.id b.id
        else ltb_ℤ a.applied_order b.applied_order)
    else text_ltb a.entity_id b.entity_id

unfoldable pub sort_instances : List StatusInstance → List StatusInstance
sort_instances = sort instance_before

-- The working copy of a snapshot.
abbrev pub start_working : RuntimeSnapshot → Working
start_working snapshot = record {
  overrides = (clone_snapshot snapshot.input_overrides).by_entity;
  statuses = snapshot.status_instances;
  scalar_applications = [];
  status_applications = [];
  changed = [];
}

-- The result that is built behind the loop.
unfoldable pub result_of : Working → RuntimeTransitionResult
result_of w = record {
  scalar_applications = w.scalar_applications;
  status_applications = w.status_applications;
  input_overrides = record { by_entity = w.overrides };
  status_instances = sort_instances w.statuses;
  changed_entity_ids = sort_texts w.changed;
}

-- The checks in front of the loop, in their order.
unfoldable pub check_transition :
    TransitionPlan
    → Map Entity
    → Definitions
    → Map InlineStatus
    → RuntimeSnapshot
    → Result (Unit {0})
check_transition plan entities mechanics statuses snapshot = elim (validate_graph mechanics) [
  | none ↦ err out_of_fuel
  | some errs ↦ do
    require_valid err_invalid_definition errs
    require_valid err_invalid_definition (validate_inline_statuses statuses mechanics)
    require_valid err_invalid_transition (validate_plan plan entities mechanics statuses)
    require_valid err_invalid_runtime_snapshot
        (validate_snapshot snapshot.input_overrides entities mechanics)
    require_valid err_invalid_runtime_snapshot
        (validate_runtime_instances snapshot.status_instances entities statuses)
    require_valid err_invalid_runtime_snapshot
        (missing_records snapshot.input_overrides.by_entity plan.effects)
]

-- ApplyRuntimeTransition
unfoldable pub apply_transition :
    TransitionPlan
    → Map Entity
    → Definitions
    → Map InlineStatus
    → RuntimeSnapshot
    → Result RuntimeTransitionResult
apply_transition plan entities mechanics statuses snapshot = do
  check_transition plan entities mechanics statuses snapshot
  w ← apply_effects entities mechanics (sort_effects plan.effects) (start_working snapshot)
  ok (result_of w)
