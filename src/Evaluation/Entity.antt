-- ===== src/Evaluation/Entity.antt =====
-- EvaluateEntity and EvaluateEntityWithGraph of internal/rules/evaluation.go.
use Prim.Native.Nat.{suc}
use mathlib.Core.Bool.{Bool, false, ◌||◌, not}
use mathlib.Core.List.{List, [], ◌∷◌, ◌++◌}
use mathlib.Core.Option.{none, some}
use gezerah.Base.Tests.{◌==◌, string_eq, if◌then◌else◌}
use gezerah.Base.Lists.{length}
use gezerah.Base.Map.{Map, lookup, keys}
use gezerah.Base.Sort.{sort_texts}
use gezerah.Errors.{
  fault, Result, ok, err, ◌>>=◌, ◌>>◌, require_valid, evaluation_error, domain,
  err_invalid_definition, err_invalid_runtime_snapshot,
}
use gezerah.Types.{
  RulesId, valid, Entity, InputOverrideRecord, MechanicGraph, InlineStatus, StatusInstance,
  EntityEvaluation,
}
use gezerah.State.{Definitions, validate_record}
use gezerah.Statuses.{seen, validate_inline_statuses, validate_status_instances}
use gezerah.Graph.Compile.{compile_graph}
use gezerah.Evaluation.Modifiers.{resolved_modifiers}
use gezerah.Evaluation.Evaluator.{Setting, Evaluator, evaluate_mechanic}

-- What the two loops of EvaluateEntityWithGraph write to: the evaluator and the order, which is also
-- the set `includedInOrder`.
pub record EntityWalk : Type 0 where
  pub evaluator : Evaluator
  pub order : List RulesId

abbrev pub start_evaluator : Evaluator
start_evaluator = record { states = []; values = []; stack = []; stack_indexes = [] }

-- `definition, exists := m[id]; !exists || definition.WorldID != entity.WorldID` does not hold.
abbrev pub is_local : Setting → RulesId → Bool
is_local setting id = elim (lookup id setting.definitions) [
  | none ↦ false
  | some d ↦ d.world_id == setting.entity.world_id
]

-- One round of either loop.
unfoldable pub evaluate_one : Setting → RulesId → EntityWalk → Result EntityWalk
evaluate_one setting id w =
    let visited : Result EntityWalk =
      elim (evaluate_mechanic setting (suc (length setting.definitions)) id w.evaluator) [
        | err e ↦ err e
        | ok (m, s) ↦ ok (record { evaluator = s; order = w.order ++ id ∷ [] })
      ] in
    if not (is_local setting id) then ok w else if seen id w.order then ok w else visited

unfoldable pub evaluate_all : Setting → List RulesId → EntityWalk → Result EntityWalk
evaluate_all setting [] w = ok w
evaluate_all setting (id ∷ ids) w = do w' ← evaluate_one setting id w; evaluate_all setting ids w'

-- The two loops: over the compiled order, and over the sorted IDs of all definitions.
unfoldable pub evaluate_ordered :
    Setting → List RulesId → InputOverrideRecord → Result EntityEvaluation
evaluate_ordered setting order r = do
  w ← evaluate_all setting order (record { evaluator = start_evaluator; order = [] })
  w' ← evaluate_all setting (sort_texts (keys setting.definitions)) w
  ok (record {
    entity_id = setting.entity.id;
    revision = r.revision;
    order = w'.order;
    values = w'.evaluator.values;
  })

-- EvaluateEntityWithGraph
unfoldable pub evaluate_entity_with_graph :
    Entity
    → InputOverrideRecord
    → MechanicGraph
    → Map InlineStatus
    → List StatusInstance
    → Result EntityEvaluation
evaluate_entity_with_graph entity r graph statuses instances =
    if not (valid entity.id) || not (valid entity.world_id)
    then err (evaluation_error "entity" "evaluated entity requires non-empty entity and world IDs")
    else elim graph.definitions [
      | none ↦ err (
          domain (record {
            kind = err_invalid_definition;
            errors =
                fault "uncompiled_graph" "graph"
                  "mechanic graph must be created by CompileMechanicGraph";
          }))
      | some definitions ↦ do
        require_valid err_invalid_runtime_snapshot (validate_record r entity definitions)
        require_valid err_invalid_definition (validate_inline_statuses statuses definitions)
        require_valid err_invalid_runtime_snapshot
            (validate_status_instances entity statuses instances)
        evaluate_ordered
            (record {
              entity = entity;
              input_overrides = r;
              definitions = definitions;
              modifiers_by_mechanic = resolved_modifiers statuses instances;
            })
            graph.order r
    ]

-- EvaluateEntity
unfoldable pub evaluate_entity :
    Entity
    → InputOverrideRecord
    → Definitions
    → Map InlineStatus
    → List StatusInstance
    → Result EntityEvaluation
evaluate_entity entity r definitions statuses instances = do
  graph ← compile_graph definitions
  evaluate_entity_with_graph entity r graph statuses instances
