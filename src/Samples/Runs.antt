-- ===== src/Samples/Runs.antt =====
-- Runs of internal/rules/runtime_transitions.go and internal/rules/evaluation.go at the small world.
use mathlib.Core.Bool.{true}
use mathlib.Core.List.{List, [], ◌∷◌, map}
use mathlib.Core.Option.{Option, some, none}
use mathlib.Core.Option as Option
use mathlib.Core.Path.{◌≡◌, refl}
use gezerah.Base.Int.{pos}
use gezerah.Base.Map.{lookup}
use gezerah.Errors.{ValidationError, Result, ok, err, domain, err_invalid_transition, ErrorKind}
use gezerah.Types.{
  StatusInstance, RulesId, RuntimeTransitionResult, EntityEvaluation, MechanicValue,
  effect_apply_status,
}
use gezerah.Graph.Compile.{validate_graph}
use gezerah.Transition.Instances.{validate_runtime_instances}
use gezerah.Transition.Run.{apply_transition}
use gezerah.Evaluation.Entity.{evaluate_entity}
use gezerah.Samples.Program.{program}
use gezerah.Samples.World.{
  number, mechanics, hero, entities, hero_record, villain_record, statuses, blessed, plan, snapshot,
  set_strength, bless_hero,
}

-- What the transition of the plan returns: strength is set to 2 and raised to 3, its default.
abbrev pub outcome : RuntimeTransitionResult
outcome = record {
  scalar_applications =
      record {
        effect_id = "set";
        entity_id = "hero";
        mechanic_id = "strength";
        before = number "7.5";
        after = number "2";
        changed = true;
      }
      ∷ record {
        effect_id = "raise";
        entity_id = "hero";
        mechanic_id = "strength";
        before = number "2";
        after = number "3";
        changed = true;
      }
      ∷ [];
  status_applications =
      record {
        effect_id = "bless";
        entity_id = "hero";
        source_effect_id = "bless";
        status_instance_id = "i1";
        operation = effect_apply_status;
        changed = true;
      }
      ∷ [];
  input_overrides = record {
    by_entity = ("hero", record hero_record { overrides = [] }) ∷ ("villain", villain_record) ∷ [];
  };
  status_instances = record blessed { applied_order = pos 1 } ∷ [];
  changed_entity_ids = "hero" ∷ [];
}

graph_valid : validate_graph mechanics ≡ some []
unfolding program
graph_valid = refl

transition_runs : apply_transition plan entities mechanics statuses snapshot ≡ ok outcome
unfolding program
transition_runs = refl

abbrev kind_of_failure {ℓ} : {A : Type ℓ} → Result A → Option ErrorKind
kind_of_failure (err (domain e)) = some e.kind
kind_of_failure _ = none

-- Two effects with one ID are refused.
transition_refuses :
    kind_of_failure (
      apply_transition
        (record { effects = set_strength ∷ set_strength ∷ [] })
        entities
        mechanics
        statuses
        snapshot)
    ≡ some err_invalid_transition
unfolding program
transition_refuses = refl

abbrev effective_of : RulesId → Result EntityEvaluation → Option MechanicValue
effective_of id (ok e) = Option.map (λ m. m.effective) (lookup id e.values)
effective_of id (err e) = none

-- The blessing raises strength to 8.5, which reach doubles.
evaluation_runs :
    effective_of "reach" (
      evaluate_entity hero hero_record mechanics statuses
        (record blessed { applied_order = pos 1 } ∷ []))
    ≡ some (number "17")
unfolding program
evaluation_runs = refl

abbrev instances_of : Result RuntimeTransitionResult → List StatusInstance
instances_of (ok r) = r.status_instances
instances_of (err e) = []

-- The hero gets an instance whose ID is active on the villain: the transition succeeds, and its
-- instances fail the validation of a snapshot.
shared_instance_id :
    map
      (λ (e : ValidationError). e.code)
      (validate_runtime_instances
        (instances_of (
          apply_transition
            (record { effects = record bless_hero { position = pos 0 } ∷ [] })
            entities
            mechanics
            statuses
            (record snapshot {
              status_instances =
                  record blessed { entity_id = "villain"; applied_order = pos 1 } ∷ [];
            })))
        entities
        statuses)
    ≡ "duplicate" ∷ []
unfolding program
shared_instance_id = refl
