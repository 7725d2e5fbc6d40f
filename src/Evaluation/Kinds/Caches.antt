-- ===== src/Evaluation/Kinds/Caches.antt =====
-- Well-typed settings and well-kinded caches of the evaluator.
use Prim.Native.String.{String}
use mathlib.Core.Bool.{true}
use mathlib.Core.List.{List, []}
use mathlib.Core.Logic.{◌⊎◌, ◌≢◌, inl, inr}
use mathlib.Core.Option.{some, some-injective}
use mathlib.Core.Path.{◌≡◌, sym, subst, ◌∙◌}
use native.Mathlib.Omega.{arith}
use text.Mathlib.TextEquality.{eq_iff}
use gezerah.Base.Tests.{◌==◌, nat_beq, string_eq, Bool-cases}
use gezerah.Base.Lists.{All}
use gezerah.Base.Map.{lookup, lookup-insert}
use gezerah.Errors.{Error, Result, ok, err, evaluation_error, is_evaluation_error, text_of_error}
use gezerah.Types.{
  RulesId, kind_eq, kind_beq_iff, MechanicValue, MechanicDefinition, EvaluatedMechanic,
  source_input, source_derived, source_other, Expression, AppliedModifier,
}
use gezerah.Values.{clone_value}
use gezerah.Definitions.{valid_value_kind}
use gezerah.State.{resolve_input}
use gezerah.Statuses.{validate_modifier}
use gezerah.Graph.Infer.{infer}
use gezerah.Transition.Instances.{at_or}
use gezerah.Evaluation.Modifiers.{apply_modifiers}
use gezerah.Evaluation.Evaluator.{
  Setting, Evaluator, Intrinsic, expression_error, cycle_error, zero_evaluated, finish,
  open_mechanic, close_mechanic,
}
use gezerah.Evaluation.Kinds.{Shaped, Arithmetic}
use gezerah.Evaluation.Kinds.Modifiers.{
  Benign, cyclic, overflow, stopped, Ends, apply_modifiers-Ends,
}

-- What the checks in front of an evaluation ensure of a mechanic of the world of the entity: a
-- resolved input, or an accepted expression, of the declared kind, and modifiers that fit it.
pub record TypedMechanic (setting : Setting) (id : RulesId) (d : MechanicDefinition) : Type 0 where
  pub input :
      d.source_kind ≡ source_input
      → Shaped d.value_kind (resolve_input setting.input_overrides d).value
  pub expression :
      d.source_kind ≡ source_derived
      → (e : Expression) × (path : String) × (d.expression ≡ some e)
        × ((infer d setting.definitions e path []).errors ≡ [])
        × (valid_value_kind (infer d setting.definitions e path []).kind ≡ true
            → (infer d setting.definitions e path []).kind ≡ d.value_kind)
  pub known : (k : String) → d.source_kind ≢ source_other k
  pub modifiers :
      All (λ r. validate_modifier r.modifier d ≡ []) (at_or setting.modifiers_by_mechanic id [])

abbrev pub IsTyped : Setting → Type 0
IsTyped setting =
    (id : RulesId) (d : MechanicDefinition)
    → lookup id setting.definitions ≡ some d
    → (d.world_id == setting.entity.world_id) ≡ true
    → TypedMechanic setting id d

module _ (setting : Setting) where
  open setting use {entity, definitions}

  -- Every cached value has the kind of its mechanic, and every evaluated mechanic a cached value.
  abbrev pub IsKinded : Evaluator → Type 0
  IsKinded s =
      ((id : RulesId) (d : MechanicDefinition)
        → lookup id definitions ≡ some d
        → nat_beq (at_or s.states id 0) 2 ≡ true
        → Shaped d.value_kind (at_or s.values id zero_evaluated).effective)
      × ((id : RulesId) (d : MechanicDefinition) (m : EvaluatedMechanic)
          → lookup id definitions ≡ some d
          → lookup id s.values ≡ some m
          → Shaped d.value_kind m.effective)

  pub open-IsKinded : (id : RulesId) (s : Evaluator) → IsKinded s → IsKinded (open_mechanic id s)
  open-IsKinded id s kinded = (
    λ j d found done. kinded.0 j d found (ground (arith, done, lookup-insert id j 1 s.states)),
    kinded.1,
  )

  pub close-IsKinded :
      (id : RulesId) (d : MechanicDefinition) (m : EvaluatedMechanic) (s : Evaluator)
      → lookup id definitions ≡ some d
      → Shaped d.value_kind m.effective
      → IsKinded s
      → IsKinded (close_mechanic id m s)
  close-IsKinded id d m s found shaped kinded = (evaluated, cached)
    where
      own :
          (j : RulesId) (e : MechanicDefinition)
          → lookup j definitions ≡ some e
          → (id == j) ≡ true
          → Shaped e.value_kind m.effective
      own j e found' same =
          let one : d ≡ e = some-injective d e (
            sym found
            ∙ subst (λ k. lookup k definitions ≡ some e) (sym ((eq_iff id j).0 same)) found') in
          subst (λ d. Shaped d.value_kind m.effective) one shaped

      evaluated :
          (j : RulesId) (e : MechanicDefinition)
          → lookup j definitions ≡ some e
          → nat_beq (at_or (close_mechanic id m s).states j 0) 2 ≡ true
          → Shaped e.value_kind (at_or (close_mechanic id m s).values j zero_evaluated).effective
      evaluated j e found' done = elim (Bool-cases (id == j)) [
        | inl same ↦ rw (lookup-insert id j m s.values, same) (own j e found' same)
        | inr other ↦
            rw (lookup-insert id j m s.values, other)
              (kinded.0 j e found' (ground (arith, done, other, lookup-insert id j 2 s.states)))
      ]

      cached :
          (j : RulesId) (e : MechanicDefinition) (n : EvaluatedMechanic)
          → lookup j definitions ≡ some e
          → lookup j (close_mechanic id m s).values ≡ some n
          → Shaped e.value_kind n.effective
      cached j e n found' there = elim (Bool-cases (id == j)) [
        | inl same ↦
            let one : m ≡ n =
              some-injective m n (ground (arith, there, same, lookup-insert id j m s.values)) in
            subst (λ n. Shaped e.value_kind n.effective) one (own j e found' same)
        | inr other ↦
            kinded.1 j e n found' (ground (arith, there, other, lookup-insert id j m s.values))
      ]

  pub finish-Ends :
      (id : RulesId) (d : MechanicDefinition) (i : Intrinsic)
      → All (λ r. validate_modifier r.modifier d ≡ []) (at_or setting.modifiers_by_mechanic id [])
      → Shaped d.value_kind i.1
      → Ends (λ m. Shaped d.value_kind m.effective) (finish setting id d i)
  unfolding finish
  finish-Ends id d (presence, value, t) accepted h =
      rw ((kind_beq_iff value.kind d.value_kind).1 h.0, h.1, finish)
        (go (apply_modifiers (at_or setting.modifiers_by_mechanic id []) value)
          (apply_modifiers-Ends d (at_or setting.modifiers_by_mechanic id []) value accepted h))
    where
      go :
          (r : Result (MechanicValue × List AppliedModifier))
          → Ends (λ p. Shaped d.value_kind p.0) r
          → Ends {A = EvaluatedMechanic}
              (λ m. Shaped d.value_kind m.effective)
              (elim r [
                | err e ↦ err e
                | ok (effective, steps) ↦ ok (record {
                  mechanic_id = id;
                  source_kind = d.source_kind;
                  presence = presence;
                  intrinsic = value;
                  effective = clone_value effective;
                  expression = t;
                  modifiers = steps;
                })
              ])
      go (ok p) h = h
      go (err e) h = h

  pub expression_error-Benign :
      (id : RulesId) (e : Error) → Benign e ⊎ Arithmetic e → Benign (expression_error id e)
  unfolding is_evaluation_error text_of_error evaluation_error cycle_error
  expression_error-Benign id _ (inl (cyclic j s)) = cyclic j s
  expression_error-Benign id _ (inl (overflow path)) = overflow path
  expression_error-Benign id _ (inl stopped) = stopped
  expression_error-Benign id e (inr same) =
      subst (λ e. Benign (expression_error id e)) (sym same) (overflow _)

  -- A call that kept the cache well-kinded and gave an item with the property, or a benign error.
  abbrev pub Kinded {ℓ} : {A : Type ℓ} → (A → Type 0) → Result (A × Evaluator) → Type 0
  Kinded P (ok (a, s)) = P a × IsKinded s
  Kinded P (err e) = Benign e
