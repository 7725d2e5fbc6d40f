-- ===== src/Evaluation/Complete.antt =====
-- EvaluateEntityWithGraph evaluates every mechanic of the world of the entity, each once.
use mathlib.Core.Bool.{true, false, not, ◌||◌}
use mathlib.Core.List.{List, [], ◌∷◌, ◌++◌}
use mathlib.Core.Logic.{◌⊎◌, inl, inr}
use mathlib.Core.Option.{some}
use mathlib.Core.Path.{◌≡◌, refl, subst}
use native.Mathlib.Omega.{arith}
use text.Mathlib.TextEquality.{eq_iff}
use gezerah.Base.Tests.{◌==◌, string_eq, Bool-cases}
use gezerah.Base.Lists.{All}
use gezerah.Base.Map.{Map, lookup, keys}
use gezerah.Base.Sort.{sort_texts, All-sort_texts_of}
use gezerah.Errors.{ok, ok-injective, >>=-eq-ok, require_valid}
use gezerah.Types.{
  RulesId, valid, MechanicDefinition, Entity, InputOverrideRecord, MechanicGraph, InlineStatus,
  StatusInstance, EntityEvaluation,
}
use gezerah.State.{Definitions}
use gezerah.Statuses.{seen}
use gezerah.Evaluation.Evaluator.{Setting}
use gezerah.Evaluation.Modifiers.{resolved_modifiers}
use gezerah.Evaluation.Entity.{
  EntityWalk, start_evaluator, is_local, evaluate_one, evaluate_all, evaluate_ordered,
  evaluate_entity_with_graph,
}

-- No ID stands twice.
abbrev pub NoRepeat : List RulesId → Type 0
NoRepeat [] = Unit
NoRepeat (id ∷ ids) = (seen id ids ≡ false) × NoRepeat ids

seen-append :
    (id : RulesId) (xs : List RulesId) (x : RulesId)
    → seen id (xs ++ x ∷ []) ≡ (seen id xs || (x == id))
unfolding seen
seen-append id [] x = ground arith
seen-append id (y ∷ xs) x = ground (arith, seen-append id xs x)

NoRepeat-append :
    (xs : List RulesId) (x : RulesId) → NoRepeat xs → seen x xs ≡ false → NoRepeat (xs ++ x ∷ [])
unfolding seen
NoRepeat-append [] x h new = (refl, tt)
NoRepeat-append (y ∷ xs) x h new = (
  ground (arith, h.0, new, seen-append y xs x, eq_iff x y, eq_iff y x),
  NoRepeat-append xs x h.1 (ground (arith, new)),
)

module _ (setting : Setting) where
  -- One round keeps the order, where the mechanic is foreign or listed, or appends the mechanic.
  evaluate_one-order :
      (id : RulesId) (w w' : EntityWalk)
      → evaluate_one setting id w ≡ ok w'
      → ((w'.order ≡ w.order) × (is_local setting id ≡ true → seen id w.order ≡ true))
        ⊎ ((w'.order ≡ w.order ++ id ∷ []) × (seen id w.order ≡ false))
  unfolding evaluate_one
  evaluate_one-order id w w' h = elim (Bool-cases (is_local setting id)) [
    | inr foreign ↦ inl (ground (arith, h, foreign))
    | inl near ↦ elim (Bool-cases (seen id w.order)) [
      | inl old ↦ inl (ground (arith, h, near, old))
      | inr new ↦ inr (ground (arith, h, near, new))
    ]
  ]

  -- What a part of the walk does to the order.
  pub record Lists (ids : List RulesId) (w w' : EntityWalk) : Type 0 where
    pub once : NoRepeat w.order → NoRepeat w'.order
    pub kept : (id : RulesId) → seen id w.order ≡ true → seen id w'.order ≡ true
    pub listed : All (λ id. is_local setting id ≡ true → seen id w'.order ≡ true) ids

  evaluate_all-Lists :
      (ids : List RulesId) (w w' : EntityWalk) → evaluate_all setting ids w ≡ ok w' → Lists ids w w'
  unfolding evaluate_all
  evaluate_all-Lists [] w w' h = record {
    once = λ none_twice. rw (← ok-injective h) none_twice;
    kept = λ id old. rw (← ok-injective h) old;
    listed = tt;
  }
  evaluate_all-Lists (id ∷ ids) w w' h =
      let (next, now, later) = >>=-eq-ok (evaluate_one setting id w) (evaluate_all setting ids) h in
      let rest = evaluate_all-Lists ids next w' later in
      elim (evaluate_one-order id w next now) [
        | inl (same, listed) ↦ record {
          once = λ none_twice. rest.once (rw same none_twice);
          kept = λ j old. rest.kept j (rw same old);
          listed = (λ near. rest.kept id (rw same (listed near)), rest.listed);
        }
        | inr (more, new) ↦ record {
          once = λ none_twice. rest.once (rw more (NoRepeat-append w.order id none_twice new));
          kept = λ j old. rest.kept j (rw more (ground (arith, old, seen-append j w.order id)));
          listed = (
            λ near.
                rest.kept id (rw more (ground (arith, eq_iff id id, seen-append id w.order id))),
            rest.listed,
          );
        }
      ]

  evaluate_ordered-Lists :
      (order : List RulesId) (r : InputOverrideRecord) (e : EntityEvaluation)
      → evaluate_ordered setting order r ≡ ok e
      → NoRepeat e.order
        × All (λ id. is_local setting id ≡ true → seen id e.order ≡ true) (keys setting.definitions)
  unfolding evaluate_ordered
  evaluate_ordered-Lists order r e h =
      let ids = sort_texts (keys setting.definitions) in
      let start : EntityWalk = record { evaluator = start_evaluator; order = [] } in
      let (w, first, run) = >>=-eq-ok (evaluate_all setting order start) _ h in
      let (w', second, built) = >>=-eq-ok (evaluate_all setting ids w) _ run in
      let same : e.order ≡ w'.order = ground (arith, built) in
      let before = evaluate_all-Lists order start w first in
      let behind = evaluate_all-Lists ids w w' second in
      (
        rw same (behind.once (before.once tt)),
        rw same (
            All-sort_texts_of (λ id. is_local setting id ≡ true → seen id w'.order ≡ true)
              (keys setting.definitions) behind.listed),
      )

pub All-keys {ℓ} :
    {V : Type ℓ} (P : RulesId → Type 0) (m : Map V) (id : RulesId) (d : V)
    → All P (keys m)
    → lookup id m ≡ some d
    → P id
unfolding keys lookup
All-keys P [] id d h found = absurd (ground (arith, found))
All-keys P ((j, e) ∷ m) id d h found = elim (Bool-cases (j == id)) [
  | inl same ↦ subst P ((eq_iff j id).0 same) h.0
  | inr other ↦ All-keys P m id d h.1 (ground (arith, other, found))
]

-- An evaluation that EvaluateEntityWithGraph returns for a compiled graph lists no mechanic twice
-- and lists every mechanic of the graph that belongs to the world of the entity, whatever the order
-- of the graph holds.
pub evaluate_entity_with_graph-order :
    (entity : Entity) (r : InputOverrideRecord) (graph : MechanicGraph)
    (statuses : Map InlineStatus) (instances : List StatusInstance) (definitions : Definitions)
    (e : EntityEvaluation)
    → graph.definitions ≡ some definitions
    → evaluate_entity_with_graph entity r graph statuses instances ≡ ok e
    → NoRepeat e.order
      × ((id : RulesId) (d : MechanicDefinition)
          → lookup id definitions ≡ some d
          → (d.world_id == entity.world_id) ≡ true
          → seen id e.order ≡ true)
unfolding evaluate_entity_with_graph
evaluate_entity_with_graph-order entity r graph statuses instances definitions e compiled h =
    elim (Bool-cases (not (valid entity.id) || not (valid entity.world_id))) [
      | inl bad ↦ absurd (ground (arith, bad, h))
      | inr good ↦
          let run = rw (good, compiled, evaluate_entity_with_graph) at h in
          let (_, a, run₁) = >>=-eq-ok (require_valid _ _) _ run in
          let (_, b, run₂) = >>=-eq-ok (require_valid _ _) _ run₁ in
          let (_, c, run₃) = >>=-eq-ok (require_valid _ _) _ run₂ in
          let setting : Setting = record {
            entity = entity;
            input_overrides = r;
            definitions = definitions;
            modifiers_by_mechanic = resolved_modifiers statuses instances;
          } in
          let lists = evaluate_ordered-Lists setting graph.order r e run₃ in
          (
            lists.0,
            λ id d found near.
                All-keys (λ id. is_local setting id ≡ true → seen id e.order ≡ true) definitions id
                  d lists.1 found (ground (arith, found, near)),
          )
    ]
