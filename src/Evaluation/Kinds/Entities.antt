-- ===== src/Evaluation/Kinds/Entities.antt =====
-- EvaluateEntity on checked input: its values have the declared kinds.
use Prim.Native.Nat.{ℕ, suc}
use mathlib.Core.Bool.{true, not, ◌||◌}
use mathlib.Core.List.{List, [], ◌∷◌, ◌++◌}
use mathlib.Core.Logic.{◌⊎◌, ◌≢◌, inl, inr}
use mathlib.Core.Option.{some}
use mathlib.Core.Path.{◌≡◌, refl}
use native.Mathlib.Omega.{arith}
use gezerah.Base.Tests.{string_eq, Bool-cases, Option-cases}
use gezerah.Base.Lists.{length}
use gezerah.Base.Map.{Map, lookup, keys}
use gezerah.Base.Sort.{sort_texts}
use gezerah.Errors.{
  Error, out_of_fuel, domain, err_invalid_definition, err_invalid_runtime_snapshot,
  ValidationErrors, ErrorKind, Result, ok, err, ◌>>=◌, ◌>>◌, require_valid, domain_error,
  evaluation_error,
}
use gezerah.Types.{
  RulesId, valid, MechanicDefinition, Entity, InputOverrideRecord, MechanicGraph, InlineStatus,
  StatusInstance, EntityEvaluation, EvaluatedMechanic,
}
use gezerah.State.{Definitions, validate_record}
use gezerah.Statuses.{seen, validate_inline_statuses, validate_status_instances}
use gezerah.Graph.Compile.{validate_graph}
use gezerah.Graph.Total.{compile_graph_lem}
use gezerah.Evaluation.Evaluator.{Setting, Evaluator, evaluate_mechanic}
use gezerah.Evaluation.Modifiers.{resolved_modifiers}
use gezerah.Evaluation.Entity.{
  EntityWalk, start_evaluator, is_local, evaluate_one, evaluate_all, evaluate_ordered,
  evaluate_entity_with_graph, evaluate_entity,
}
use gezerah.Evaluation.Terminates.{evaluate_entity-ne-out_of_fuel}
use gezerah.Evaluation.Kinds.{Shaped}
use gezerah.Evaluation.Kinds.Modifiers.{Benign}
use gezerah.Evaluation.Kinds.Caches.{IsTyped, IsKinded, Kinded}
use gezerah.Evaluation.Kinds.Mechanics.{evaluate_mechanic-Kinded}
use gezerah.Evaluation.Kinds.Checked.{validate_graph-Checked}
use gezerah.Evaluation.Kinds.Sources.{
  resolve_input-Shaped, derived-Typed, validate_definition-eq-nil,
}
use gezerah.Evaluation.Kinds.Accepted.{resolved_modifiers-Fits}

-- The checks in front of an evaluation give a well-typed setting.
checked-Typed :
    (entity : Entity) (r : InputOverrideRecord) (definitions : Definitions)
    (statuses : Map InlineStatus) (instances : List StatusInstance)
    → validate_graph definitions ≡ some []
    → validate_record r entity definitions ≡ []
    → validate_inline_statuses statuses definitions ≡ []
    → IsTyped (record {
      entity = entity;
      input_overrides = r;
      definitions = definitions;
      modifiers_by_mechanic = resolved_modifiers statuses instances;
    })
checked-Typed entity r definitions statuses instances graph own inline id d found near =
    let checked = validate_graph-Checked definitions graph id d found in
    let (_, source, _) = validate_definition-eq-nil d checked.valid in
    record {
      input = resolve_input-Shaped entity r definitions id d own checked found near;
      expression = derived-Typed definitions id d checked;
      known = λ k other. absurd (ground (arith, source, other));
      modifiers = resolved_modifiers-Fits definitions statuses instances id d inline found;
    }

module _ (setting : Setting) (typed : IsTyped setting) where
  -- A walk that kept the cache well-kinded, or a benign error.
  abbrev Walked : Result EntityWalk → Type 0
  Walked (ok w) = IsKinded setting w.evaluator
  Walked (err e) = Benign e

  evaluate_one-Walked :
      (id : RulesId) (w : EntityWalk)
      → IsKinded setting w.evaluator
      → Walked (evaluate_one setting id w)
  unfolding evaluate_one
  evaluate_one-Walked id w kinded = elim (Bool-cases (is_local setting id)) [
    | inl near ↦ elim (Bool-cases (seen id w.order)) [
      | inl listed ↦ rw (near, listed, evaluate_one) kinded
      | inr fresh ↦ rw (near, fresh, evaluate_one) (visited near)
    ]
    | inr far ↦ rw (far, evaluate_one) kinded
  ]
    where
      fuel : ℕ
      fuel = suc (length setting.definitions)

      go :
          (d : MechanicDefinition) (x : Result (EvaluatedMechanic × Evaluator))
          → Kinded setting (λ m. Shaped d.value_kind m.effective) x
          → Walked (elim x [
            | err e ↦ err e
            | ok (m, s) ↦ ok (record { evaluator = s; order = w.order ++ id ∷ [] })
          ])
      go d (ok (m, s)) h = h.1
      go d (err e) h = h

      visited :
          is_local setting id ≡ true
          → Walked (elim (evaluate_mechanic setting fuel id w.evaluator) [
            | err e ↦ err e
            | ok (m, s) ↦ ok (record { evaluator = s; order = w.order ++ id ∷ [] })
          ])
      visited near = elim (Option-cases (lookup id setting.definitions)) [
        | inl missing ↦ absurd (ground (arith, near, missing))
        | inr (d, there) ↦ go d (evaluate_mechanic setting fuel id w.evaluator) (
            evaluate_mechanic-Kinded setting fuel id d w.evaluator typed there
              (rw (there, is_local) at near) kinded)
      ]

  Walked-bind :
      (x : Result EntityWalk) (f : EntityWalk → Result EntityWalk)
      → Walked x
      → ((w : EntityWalk) → IsKinded setting w.evaluator → Walked (f w))
      → Walked (x >>= f)
  Walked-bind (ok w) f h g = g w h
  Walked-bind (err e) f h g = h

  evaluate_all-Walked :
      (ids : List RulesId) (w : EntityWalk)
      → IsKinded setting w.evaluator
      → Walked (evaluate_all setting ids w)
  unfolding evaluate_all
  evaluate_all-Walked [] w kinded = kinded
  evaluate_all-Walked (id ∷ ids) w kinded =
      Walked-bind (evaluate_one setting id w) (evaluate_all setting ids)
        (evaluate_one-Walked id w kinded) (evaluate_all-Walked ids)

-- The checks in front of an evaluation refuse it.
pub data Refused : Error → Type 0 where
  definition :
      (errs : ValidationErrors)
      → Refused (domain (record { kind = err_invalid_definition; errors = errs }))
  snapshot :
      (errs : ValidationErrors)
      → Refused (domain (record { kind = err_invalid_runtime_snapshot; errors = errs }))
  unnamed :
      Refused (evaluation_error "entity" "evaluated entity requires non-empty entity and world IDs")

-- Values of the declared kinds, a refusal, or a benign error.
abbrev pub Evaluated : Definitions → Result EntityEvaluation → Type 0
Evaluated definitions (ok e) =
    (id : RulesId) (d : MechanicDefinition) (m : EvaluatedMechanic)
    → lookup id definitions ≡ some d
    → lookup id e.values ≡ some m
    → Shaped d.value_kind m.effective
Evaluated definitions (err e) = Refused e ⊎ Benign e

evaluate_ordered-Evaluated :
    (setting : Setting) (order : List RulesId) (r : InputOverrideRecord)
    → IsTyped setting
    → Evaluated setting.definitions (evaluate_ordered setting order r)
unfolding evaluate_ordered
evaluate_ordered-Evaluated setting order r typed =
    first (evaluate_all setting order start)
      (evaluate_all-Walked setting typed order start start-Kinded)
  where
    ids : List RulesId
    ids = sort_texts (keys setting.definitions)

    start : EntityWalk
    start = record { evaluator = start_evaluator; order = [] }

    start-Kinded : IsKinded setting start_evaluator
    start-Kinded =
        unfold lookup in
        (
          λ id d found evaluated. absurd (ground (arith, evaluated)),
          λ id d m found there. absurd (ground (arith, there)),
        )

    evaluation : EntityWalk → EntityEvaluation
    evaluation w = record {
      entity_id = setting.entity.id;
      revision = r.revision;
      order = w.order;
      values = w.evaluator.values;
    }

    second :
        (x : Result EntityWalk)
        → Walked setting typed x
        → Evaluated setting.definitions (x >>= λ w. ok (evaluation w))
    second (ok w) h = h.1
    second (err e) h = inr h

    first :
        (x : Result EntityWalk)
        → Walked setting typed x
        → Evaluated setting.definitions
            (x >>= λ w. evaluate_all setting ids w >>= λ w'. ok (evaluation w'))
    first (ok w) h = second (evaluate_all setting ids w) (evaluate_all-Walked setting typed ids w h)
    first (err e) h = inr h

require_valid-Evaluated :
    (definitions : Definitions) (k : ErrorKind) (errs : ValidationErrors)
    (rest : Result EntityEvaluation)
    → ((errs : ValidationErrors) → Refused (domain (record { kind = k; errors = errs })))
    → (errs ≡ [] → Evaluated definitions rest)
    → Evaluated definitions (require_valid k errs >> rest)
unfolding require_valid domain_error
require_valid-Evaluated definitions k [] rest refuses h = h refl
require_valid-Evaluated definitions k (e ∷ es) rest refuses h = inl (refuses (e ∷ es))

evaluate_entity_with_graph-Evaluated :
    (entity : Entity) (r : InputOverrideRecord) (graph : MechanicGraph) (definitions : Definitions)
    (statuses : Map InlineStatus) (instances : List StatusInstance)
    → graph.definitions ≡ some definitions
    → validate_graph definitions ≡ some []
    → Evaluated definitions (evaluate_entity_with_graph entity r graph statuses instances)
unfolding evaluate_entity_with_graph
evaluate_entity_with_graph-Evaluated entity r graph definitions statuses instances holds checked =
    elim (Bool-cases (not (valid entity.id) || not (valid entity.world_id))) [
      | inl nameless ↦ rw (nameless, evaluate_entity_with_graph) (inl unnamed)
      | inr named ↦
          rw (named, holds, evaluate_entity_with_graph)
            (require_valid-Evaluated definitions err_invalid_runtime_snapshot
              (validate_record r entity definitions) _ snapshot
              (λ own.
                require_valid-Evaluated definitions err_invalid_definition
                  (validate_inline_statuses statuses definitions) _ definition
                  (λ inline.
                    require_valid-Evaluated definitions err_invalid_runtime_snapshot
                      (validate_status_instances entity statuses instances) _ snapshot
                      (λ _. evaluate_ordered-Evaluated _ graph.order r (
                        checked-Typed entity r definitions statuses instances checked own
                          inline)))))
    ]

-- Whatever the definitions, the record, the statuses and the instances are, EvaluateEntity returns
-- values of the kinds that their mechanics declare, or it refuses the input, or it ends with a
-- dependency cycle or a decimal whose scale is too large: no operand, reference or modifier of input that the
-- checks accept ever has a wrong kind.
pub evaluate_entity-Evaluated :
    (entity : Entity) (r : InputOverrideRecord) (definitions : Definitions)
    (statuses : Map InlineStatus) (instances : List StatusInstance)
    → Evaluated definitions (evaluate_entity entity r definitions statuses instances)
      × (evaluate_entity entity r definitions statuses instances ≢ err out_of_fuel)
unfolding evaluate_entity
evaluate_entity-Evaluated entity r definitions statuses instances = (
  elim (compile_graph_lem definitions) [
    | inl (checked, g, compiled, holds) ↦
        rw (compiled, evaluate_entity)
          (evaluate_entity_with_graph-Evaluated entity r g definitions statuses instances holds
            checked)
    | inr (e, es, found, refused) ↦ rw (refused, evaluate_entity) (inl (definition (e ∷ es)))
  ],
  evaluate_entity-ne-out_of_fuel entity r definitions statuses instances,
)
