-- ===== src/Evaluation/Terminates.antt =====
-- EvaluateEntityWithGraph ends: its loops never leave the evaluator without fuel.
use Prim.Native.Nat.{suc, ◌≤◌}
use mathlib.Core.Bool.{Bool, true, false, ◌||◌, not}
use mathlib.Core.List.{List, [], ◌∷◌, ◌++◌}
use mathlib.Core.Logic.{◌≢◌, inl, inr}
use mathlib.Core.Path.{◌≡◌, refl}
use native.Mathlib.Omega.{arith}
use gezerah.Base.Tests.{string_eq, if◌then◌else◌, Bool-cases, Option-cases}
use gezerah.Base.Lists.{length}
use gezerah.Base.Map.{Map, keys}
use gezerah.Base.Sort.{sort_texts}
use gezerah.Errors.{
  DomainError, domain, ErrorKind, ValidationErrors, Result, ok, err, ◌>>=◌, require_valid,
  domain_error, evaluation_error, out_of_fuel,
}
use gezerah.Types.{
  RulesId, valid, Entity, InputOverrideRecord, MechanicGraph, InlineStatus, StatusInstance,
  EvaluatedMechanic, EntityEvaluation,
}
use gezerah.State.{Definitions}
use gezerah.Graph.Total.{compile_graph_lem}
use gezerah.Statuses.{seen}
use gezerah.Evaluation.Evaluator.{Setting, Evaluator, evaluate_mechanic}
use gezerah.Evaluation.Entity.{
  EntityWalk, start_evaluator, evaluate_one, evaluate_all, evaluate_ordered,
  evaluate_entity_with_graph, evaluate_entity,
}
use gezerah.Evaluation.Plain.{is_fuel, NoFuel, NoFuel-bind}
use gezerah.Evaluation.Measure.{unopened, unopened-le, unopened-start}
use gezerah.Evaluation.Total.{Settles, evaluate_mechanic-Settles}

require_valid-NoFuel : (k : ErrorKind) (errs : ValidationErrors) → NoFuel (require_valid k errs)
unfolding require_valid domain_error
require_valid-NoFuel k [] = tt
require_valid-NoFuel k (e ∷ es) = refl

module _ (setting : Setting) where
  open setting use {definitions}

  -- The round or the loop did not run out of fuel, and the next round has enough.
  abbrev Fueled : Result EntityWalk → Type 0
  Fueled (ok w) = unopened definitions w.evaluator.states ≤ length definitions
  Fueled (err e) = is_fuel e ≡ false

  Fueled-bind :
      (x : Result EntityWalk) (f : EntityWalk → Result EntityWalk)
      → Fueled x
      → ((w : EntityWalk)
          → unopened definitions w.evaluator.states ≤ length definitions
          → Fueled (f w))
      → Fueled (x >>= f)
  Fueled-bind (ok w) f h g = g w h
  Fueled-bind (err e) f h g = h

  Fueled-finish :
      {A : Type 0} (x : Result EntityWalk) (f : EntityWalk → A)
      → Fueled x
      → NoFuel (x >>= λ w. ok (f w))
  Fueled-finish (ok w) f h = tt
  Fueled-finish (err e) f h = h

  evaluate_one-Fueled :
      (id : RulesId) (w : EntityWalk)
      → unopened definitions w.evaluator.states ≤ length definitions
      → Fueled (evaluate_one setting id w)
  unfolding evaluate_one
  evaluate_one-Fueled id w few = by_tests _ (seen id w.order) _ (
      by_call (evaluate_mechanic setting (suc (length definitions)) id w.evaluator)
        (evaluate_mechanic-Settles setting (suc (length definitions)) id w.evaluator (omega arith)))
    where
      by_tests :
          (a b : Bool) (r : Result EntityWalk)
          → Fueled r
          → Fueled (if a then ok w else if b then ok w else r)
      by_tests true b r h = few
      by_tests false true r h = few
      by_tests false false r h = h

      by_call :
          (r : Result (EvaluatedMechanic × Evaluator))
          → Settles w.evaluator.states r
          → Fueled (elim r [
            | err e ↦ err e
            | ok (m, s) ↦ ok (record { evaluator = s; order = w.order ++ id ∷ [] })
          ])
      by_call (ok (m, s)) h = omega (arith, unopened-le definitions w.evaluator.states s.states h)
      by_call (err e) h = h

  evaluate_all-Fueled :
      (ids : List RulesId) (w : EntityWalk)
      → unopened definitions w.evaluator.states ≤ length definitions
      → Fueled (evaluate_all setting ids w)
  unfolding evaluate_all
  evaluate_all-Fueled [] w few = few
  evaluate_all-Fueled (id ∷ ids) w few =
      Fueled-bind (evaluate_one setting id w) (evaluate_all setting ids)
        (evaluate_one-Fueled id w few) (λ w' few'. evaluate_all-Fueled ids w' few')

  evaluate_ordered-NoFuel :
      (order : List RulesId) (r : InputOverrideRecord) → NoFuel (evaluate_ordered setting order r)
  unfolding evaluate_ordered
  evaluate_ordered-NoFuel order r = go (evaluate_all setting order start) started
    where
      start : EntityWalk
      start = record { evaluator = start_evaluator; order = [] }

      started : Fueled (evaluate_all setting order start)
      started = evaluate_all-Fueled order start (unopened-start definitions)

      go :
          (x : Result EntityWalk)
          → Fueled x
          → NoFuel {A = EntityEvaluation} (
              x >>= λ w. evaluate_all setting (sort_texts (keys definitions)) w >>= λ w'.
              ok (record {
                entity_id = setting.entity.id;
                revision = r.revision;
                order = w'.order;
                values = w'.evaluator.values;
              }))
      go (ok w) h =
          Fueled-finish (evaluate_all setting (sort_texts (keys definitions)) w) _
            (evaluate_all-Fueled (sort_texts (keys definitions)) w h)
      go (err e) h = h

ended-NoFuel :
    (entity : Entity) (r : InputOverrideRecord) (graph : MechanicGraph)
    (statuses : Map InlineStatus) (instances : List StatusInstance)
    → NoFuel (evaluate_entity_with_graph entity r graph statuses instances)
unfolding evaluate_entity_with_graph evaluation_error
ended-NoFuel entity r graph statuses instances =
    elim (Bool-cases (not (valid entity.id) || not (valid entity.world_id))) [
      | inl bad ↦ rw (bad, evaluate_entity_with_graph) refl
      | inr good ↦ elim (Option-cases graph.definitions) [
        | inl raw ↦ rw (good, raw, evaluate_entity_with_graph) refl
        | inr (definitions, compiled) ↦
            rw (good, compiled, evaluate_entity_with_graph)
              (NoFuel-bind _ _ (require_valid-NoFuel _ _) (λ _.
                NoFuel-bind _ _ (require_valid-NoFuel _ _) (λ _.
                  NoFuel-bind _ _ (require_valid-NoFuel _ _)
                    (λ _. evaluate_ordered-NoFuel _ graph.order r))))
      ]
    ]

-- For every entity, override record, graph, statuses and instances, valid or not,
-- EvaluateEntityWithGraph returns an evaluation or an error of the source: the fuel of its
-- evaluator, one more than there are definitions, never runs out.
pub evaluate_entity_with_graph-ne-out_of_fuel :
    (entity : Entity) (r : InputOverrideRecord) (graph : MechanicGraph)
    (statuses : Map InlineStatus) (instances : List StatusInstance)
    → evaluate_entity_with_graph entity r graph statuses instances ≢ err out_of_fuel
evaluate_entity_with_graph-ne-out_of_fuel entity r graph statuses instances ended =
    contradiction (rw ended at (ended-NoFuel entity r graph statuses instances))
  where
    contradiction : true ≡ false → ⊥
    contradiction h = cc

-- For all definitions, valid or not, and every entity, override record, statuses and instances,
-- EvaluateEntity returns an evaluation or an error of the source.
pub evaluate_entity-ne-out_of_fuel :
    (entity : Entity) (r : InputOverrideRecord) (definitions : Definitions)
    (statuses : Map InlineStatus) (instances : List StatusInstance)
    → evaluate_entity entity r definitions statuses instances ≢ err out_of_fuel
unfolding evaluate_entity
evaluate_entity-ne-out_of_fuel entity r definitions statuses instances ended =
    elim (compile_graph_lem definitions) [
      | inl (valid, g, compiled, holds) ↦
          evaluate_entity_with_graph-ne-out_of_fuel entity r g statuses instances
            (rw (compiled, evaluate_entity) at ended)
      | inr (e, es, found, refused) ↦ err-injective (rw (refused, evaluate_entity) at ended)
    ]
  where
    err-injective :
        {e : DomainError} → ◌≡◌ {A = Result EntityEvaluation} (err (domain e)) (err out_of_fuel) → ⊥
    err-injective h = cc
