-- ===== src/Transition/Checks.antt =====
-- What the checks in front of a transition establish.
use mathlib.Core.Bool.{true}
use mathlib.Core.List.{List, [], ◌∷◌, map}
use mathlib.Core.Option.{some}
use mathlib.Core.Path.{◌≡◌, refl, ap₂}
use native.Mathlib.Omega.{arith}
use gezerah.Base.Lists.{All}
use gezerah.Base.Map.{Map, has}
use gezerah.Errors.{ok, require_valid, domain_error}
use gezerah.Types.{
  RulesId, Entity, InlineStatus, InputOverrideRecord, ConcreteEffect, TransitionPlan,
  RuntimeSnapshot,
}
use gezerah.State.{Definitions, clone_record, validate_snapshot}
use gezerah.State.Normalize.{clone_record-id}
use gezerah.Statuses.{validate_inline_statuses}
use gezerah.Graph.Compile.{validate_graph}
use gezerah.Transition.Plan.{validate_plan}
use gezerah.Transition.Instances.{validate_runtime_instances}
use gezerah.Transition.Run.{check_transition, missing_records, missing_targets}

-- Every check found no error.
pub record Checked (plan : TransitionPlan) (entities : Map Entity) (mechanics : Definitions)
    (statuses : Map InlineStatus) (snapshot : RuntimeSnapshot) : Type 0 where
  pub graph : validate_graph mechanics ≡ some []
  pub inline : validate_inline_statuses statuses mechanics ≡ []
  pub planned : validate_plan plan entities mechanics statuses ≡ []
  pub overrides : validate_snapshot snapshot.input_overrides entities mechanics ≡ []
  pub instances : validate_runtime_instances snapshot.status_instances entities statuses ≡ []
  pub targets : missing_records snapshot.input_overrides.by_entity plan.effects ≡ []

pub check_transition-Checked :
    (plan : TransitionPlan) (entities : Map Entity) (mechanics : Definitions)
    (statuses : Map InlineStatus) (snapshot : RuntimeSnapshot) {u : Unit {0}}
    → check_transition plan entities mechanics statuses snapshot ≡ ok u
    → Checked plan entities mechanics statuses snapshot
unfolding check_transition require_valid domain_error
check_transition-Checked plan entities mechanics statuses snapshot h = ground arith

missing_targets-nil :
    (records : Map InputOverrideRecord) (ids : List RulesId)
    → missing_targets records ids ≡ []
    → All (λ id. has id records ≡ true) ids
unfolding missing_targets
missing_targets-nil records [] h = tt
missing_targets-nil records (id ∷ ids) h =
    (ground arith, missing_targets-nil records ids (ground arith))

pub missing_records-nil :
    (records : Map InputOverrideRecord) (es : List ConcreteEffect)
    → missing_records records es ≡ []
    → All (λ e. All (λ id. has id records ≡ true) e.entity_ids) es
unfolding missing_records
missing_records-nil records [] h = tt
missing_records-nil records (e ∷ es) h = (
  missing_targets-nil records e.entity_ids (ground arith),
  missing_records-nil records es (ground arith),
)

pub clone-records :
    (m : Map InputOverrideRecord)
    → map {B = RulesId × InputOverrideRecord} (λ (id, r). (id, clone_record r)) m ≡ m
clone-records [] = refl
clone-records ((id, r) ∷ m) =
    ap₂ {C = Map InputOverrideRecord}
      (λ (x : InputOverrideRecord) (y : Map InputOverrideRecord). (id, x) ∷ y) (clone_record-id r)
      (clone-records m)
