-- ===== src/Evaluation/Kinds/Mechanics.antt =====
-- The evaluation of a mechanic in a well-typed setting: its effective value has the declared kind.
use Prim.Native.Nat.{ℕ, zero, suc}
use Prim.Native.String.{String}
use mathlib.Core.Bool.{true}
use mathlib.Core.List.{[]}
use mathlib.Core.Logic.{inl, inr}
use mathlib.Core.Option.{some}
use mathlib.Core.Path.{◌≡◌, refl, subst}
use native.Mathlib.Omega.{arith}
use text.Mathlib.TextEquality.{eq_iff}
use gezerah.Base.Tests.{◌==◌, nat_beq, string_eq, Bool-cases}
use gezerah.Base.Map.{lookup}
use gezerah.Errors.{Result, ok, err}
use gezerah.Types.{
  RulesId, kind_eq, MechanicValue, MechanicDefinition, EvaluatedMechanic, SourceKind, source_input,
  source_derived, source_other, Expression, ExpressionTrace, derived,
}
use gezerah.Definitions.{valid_value_kind}
use gezerah.Graph.Infer.{infer}
use gezerah.Transition.Instances.{at_or}
use gezerah.Evaluation.Evaluator.{
  Setting, Evaluator, Reference, Intrinsic, evaluate_expression, expression_error, derive,
  intrinsic_of, finish, open_mechanic, close_mechanic, evaluate_open, evaluate_mechanic,
}
use gezerah.Evaluation.Kinds.{Shaped, Shaped-valid}
use gezerah.Evaluation.Kinds.Expressions.{Outcome, evaluate_expression-Shaped}
use gezerah.Evaluation.Kinds.Modifiers.{Benign, cyclic, stopped, Ends}
use gezerah.Evaluation.Kinds.Caches.{
  TypedMechanic, IsTyped, IsKinded, Kinded, open-IsKinded, close-IsKinded, finish-Ends,
  expression_error-Benign,
}

module _ (setting : Setting) where
  open setting use {entity, definitions}

  module _ (mechanic : Reference) (id : RulesId) (d : MechanicDefinition)
      (typed : TypedMechanic setting id d)
      (references : (id : RulesId) (r : MechanicDefinition) (s : Evaluator)
        → lookup id definitions ≡ some r
        → (r.world_id == d.world_id) ≡ true
        → IsKinded setting s
        → Kinded setting (λ m. Shaped r.value_kind m.effective) (mechanic id s)) where
    reference-Outcome :
        (id : RulesId) (r : MechanicDefinition) (s : Evaluator)
        → lookup id definitions ≡ some r
        → (r.world_id == d.world_id) ≡ true
        → IsKinded setting s
        → Outcome (IsKinded setting) Benign (λ m. Shaped r.value_kind m.effective) (mechanic id s)
    reference-Outcome id r s found home kinded =
        go (mechanic id s) (references id r s found home kinded)
      where
        go :
            (x : Result (EvaluatedMechanic × Evaluator))
            → Kinded setting (λ m. Shaped r.value_kind m.effective) x
            → Outcome (IsKinded setting) Benign (λ m. Shaped r.value_kind m.effective) x
        go (ok p) h = h
        go (err e) h = inl h

    derive-Kinded :
        (e : Expression) (path : String) (s : Evaluator)
        → (infer d definitions e path []).errors ≡ []
        → (valid_value_kind (infer d definitions e path []).kind ≡ true
            → (infer d definitions e path []).kind ≡ d.value_kind)
        → IsKinded setting s
        → Kinded setting (λ i. Shaped d.value_kind i.1) (derive setting mechanic id e s)
    unfolding derive
    derive-Kinded e path s clean kind kinded = go (evaluate_expression mechanic e s) (
        evaluate_expression-Shaped definitions (IsKinded setting) Benign mechanic d
          reference-Outcome e path [] s clean kinded)
      where
        go :
            (r : Result ((MechanicValue × ExpressionTrace) × Evaluator))
            → Outcome
                (IsKinded setting)
                Benign
                (λ (v, t). Shaped (infer d definitions e path []).kind v)
                r
            → Kinded setting {A = Intrinsic}
                (λ i. Shaped d.value_kind i.1)
                (elim r [
                  | ok ((v, t), s') ↦ ok ((derived, v, some t), s')
                  | err error ↦ err (expression_error id error)
                ])
        go (ok ((v, t), s')) h = (subst (λ k. Shaped k v) (kind (Shaped-valid _ v h.0)) h.0, h.1)
        go (err error) h = expression_error-Benign setting id error h

    intrinsic_of-Kinded :
        (s : Evaluator)
        → IsKinded setting s
        → Kinded setting (λ i. Shaped d.value_kind i.1) (intrinsic_of setting mechanic id d s)
    unfolding intrinsic_of
    intrinsic_of-Kinded s kinded = by_source d.source_kind refl
      where
        by_source :
            (k : SourceKind)
            → d.source_kind ≡ k
            → Kinded setting (λ i. Shaped d.value_kind i.1) (intrinsic_of setting mechanic id d s)
        by_source source_input e = rw (e, intrinsic_of) (typed.input e, kinded)
        by_source source_derived e =
            let (x, path, there, clean, kind) = typed.expression e in
            rw (e, there, intrinsic_of) (derive-Kinded x path s clean kind kinded)
        by_source (source_other k) e = absurd (typed.known k e)

    evaluate_open-Kinded :
        (s : Evaluator)
        → lookup id definitions ≡ some d
        → IsKinded setting s
        → Kinded setting
            (λ m. Shaped d.value_kind m.effective)
            (evaluate_open setting mechanic id d s)
    unfolding evaluate_open
    evaluate_open-Kinded s found kinded =
        go (intrinsic_of setting mechanic id d (open_mechanic id s))
          (intrinsic_of-Kinded (open_mechanic id s) (open-IsKinded setting id s kinded))
      where
        closed :
            (s' : Evaluator) (r : Result EvaluatedMechanic)
            → IsKinded setting s'
            → Ends (λ m. Shaped d.value_kind m.effective) r
            → Kinded setting {A = EvaluatedMechanic}
                (λ m. Shaped d.value_kind m.effective)
                (elim r [ err e ↦ err e | ok m ↦ ok (m, close_mechanic id m s') ])
        closed s' (ok m) kinded' h = (h, close-IsKinded setting id d m s' found h kinded')
        closed s' (err e) kinded' h = h

        go :
            (r : Result (Intrinsic × Evaluator))
            → Kinded setting (λ i. Shaped d.value_kind i.1) r
            → Kinded setting {A = EvaluatedMechanic}
                (λ m. Shaped d.value_kind m.effective)
                (elim r [
                  | err e ↦ err e
                  | ok (i, s') ↦ elim (finish setting id d i) [
                    | err e ↦ err e
                    | ok m ↦ ok (m, close_mechanic id m s')
                  ]
                ])
        go (ok (i, s')) h =
            closed s' (finish setting id d i) h.1 (finish-Ends setting id d i typed.modifiers h.0)
        go (err e) h = h

-- In a well-typed setting and from a well-kinded cache, evaluating a mechanic of the world of the
-- entity gives an effective value of its declared kind and keeps the cache well-kinded, or it ends
-- with a dependency cycle, with a decimal out of range or without fuel: no operand, literal,
-- reference or modifier ever has a wrong kind.
pub evaluate_mechanic-Kinded :
    (setting : Setting) (fuel : ℕ) (id : RulesId) (d : MechanicDefinition) (s : Evaluator)
    → IsTyped setting
    → lookup id setting.definitions ≡ some d
    → (d.world_id == setting.entity.world_id) ≡ true
    → IsKinded setting s
    → Kinded setting (λ m. Shaped d.value_kind m.effective) (evaluate_mechanic setting fuel id s)
unfolding evaluate_mechanic
evaluate_mechanic-Kinded setting zero id d s typed found near kinded = stopped
evaluate_mechanic-Kinded setting (suc fuel) id d s typed found near kinded =
    elim (Bool-cases (nat_beq (at_or s.states id 0) 2)) [
      | inl done ↦ rw (done, evaluate_mechanic) (kinded.0 id d found done, kinded)
      | inr not_done ↦ elim (Bool-cases (nat_beq (at_or s.states id 0) 1)) [
        | inl active ↦ rw (not_done, active, evaluate_mechanic) (cyclic id s)
        | inr not_active ↦
            rw (not_done, not_active, found, near, evaluate_mechanic)
              (evaluate_open-Kinded setting (evaluate_mechanic setting fuel) id d
                (typed id d found near)
                (λ j r s' found' home kinded'.
                  evaluate_mechanic-Kinded setting fuel j r s' typed found'
                    (ground (arith, near, home, eq_iff r.world_id d.world_id)) kinded')
                s found kinded)
      ]
    ]
