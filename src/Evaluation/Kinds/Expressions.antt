-- ===== src/Evaluation/Kinds/Expressions.antt =====
-- Expressions that inferExpressionType accepts evaluate to values of the inferred kinds.
use Prim.Native.Nat.{ℕ, suc}
use Prim.Native.String.{String}
use mathlib.Core.Bool.{true, false, not, ◌||◌, ◌&&◌}
use mathlib.Core.List.{[], ◌++◌}
use mathlib.Core.Logic.{◌⊎◌, inl, inr}
use mathlib.Core.Option.{Option, none, some, some-injective, none-ne-some}
use mathlib.Core.Path.{◌≡◌, refl, sym, subst}
use native.Mathlib.Omega.{arith}
use gezerah.Base.Tests.{◌==◌, string_eq, Bool-cases, Option-cases}
use gezerah.Base.Lists.{length, append-eq-nil}
use gezerah.Base.Map.{Map, lookup}
use gezerah.Base.Text.{indexed, dotted}
use gezerah.Errors.{Error, Result, ok, err, fault_if, fault_if-eq-nil}
use gezerah.Types.{
  RulesId, valid, MechanicValue, MechanicDefinition, op_literal, op_mechanic_reference, Expression,
  node, Operands, nil, cons,
}
use gezerah.Values.{valid_shape}
use gezerah.Definitions.{valid_value_kind, nest-eq-nil}
use gezerah.State.{Definitions}
use gezerah.Graph.Infer.{
  infer, infer_operands, infer_node, infer_literal, infer_reference, validate_literal,
  count_operands,
}
use gezerah.Graph.Infer.Cases.{forbid_literal, forbid_reference, require_arity, exactly}
use gezerah.Evaluation.Operations.{evaluate_operation}
use gezerah.Evaluation.Evaluator.{
  Evaluator, Eval, Reference, lift, ◌>>=◌, evaluate_expression, evaluate_operands,
}
use gezerah.Evaluation.Kinds.{Shaped, Matches, Arithmetic, Post}
use gezerah.Evaluation.Kinds.Inside.{infer_node-inside, fault-ne-nil}
use gezerah.Evaluation.Kinds.Inferred.{infer_node-Shaped}

infer_literal-Shaped :
    (literal : Option MechanicValue) (id : RulesId) (count : ℕ) (path : String) (deps : Map String)
    → (infer_literal literal id count path deps).errors ≡ []
    → (v : MechanicValue) × (literal ≡ some v)
      × Shaped (infer_literal literal id count path deps).kind v
unfolding infer_literal validate_literal
infer_literal-Shaped none id count path deps h = absurd (
    fault-ne-nil _ _ _
      (append-eq-nil (forbid_reference id path ++ require_arity (exactly 0) count path) _ h).1)
infer_literal-Shaped (some v) id count path deps h =
    let (shape, rest) =
      append-eq-nil (forbid_reference id path ++ require_arity (exactly 0) count path) _ h in
    let good : (not (valid_value_kind v.kind) || not (valid_shape v)) ≡ false =
      fault_if-eq-nil _ _ _ _ (nest-eq-nil (dotted path "literal") _ rest) in
    let shaped : valid_shape v ≡ true = ground (arith, good) in (v, refl, (rw shaped refl, shaped))

-- An accepted reference names a mechanic of the definitions, whose kind it has.
infer_reference-found :
    (owner : MechanicDefinition) (definitions : Definitions) (literal : Option MechanicValue)
    (id : RulesId) (count : ℕ) (path : String) (deps : Map String)
    → (infer_reference owner definitions literal id count path deps).errors ≡ []
    → (d : MechanicDefinition) × (lookup id definitions ≡ some d)
      × ((d.world_id == owner.world_id) ≡ true)
      × (d.value_kind ≡ (infer_reference owner definitions literal id count path deps).kind)
unfolding infer_reference
infer_reference-found owner definitions literal id count path deps h =
    let shape = forbid_literal literal path ++ require_arity (exactly 0) count path in
    elim (Bool-cases (valid id)) [
      | inr bad ↦
          absurd (fault-ne-nil _ _ _ (append-eq-nil shape _ (rw (bad, infer_reference) at h)).1)
      | inl good ↦ elim (Option-cases (lookup id definitions)) [
        | inl missing ↦ absurd (
            fault-ne-nil _ _ _ (append-eq-nil shape _ (rw (good, missing, infer_reference) at h)).1)
        | inr (d, found) ↦
            let errors = rw (good, found, infer_reference) at h in
            let (front, archived) =
              append-eq-nil _ (fault_if (not owner.archived && d.archived) _ _ _) errors in
            let (front', world) =
              append-eq-nil _ (fault_if (not (d.world_id == owner.world_id)) _ _ _) front in
            (
              d,
              found,
              ground (arith, fault_if-eq-nil (not (d.world_id == owner.world_id)) _ _ _ world),
              rw (good, found, infer_reference) refl,
            )
      ]
    ]

-- A call that kept the invariant and gave an item with the property, or that failed in an expected
-- way.
abbrev pub Outcome {ℓ} :
    {A : Type ℓ}
    → (Evaluator → Type 0)
    → (Error → Type 0)
    → (A → Type 0)
    → Result (A × Evaluator)
    → Type 0
Outcome Inv Fail P (ok (a, s)) = P a × Inv s
Outcome Inv Fail P (err e) = Fail e ⊎ Arithmetic e

count-kinds :
    (owner : MechanicDefinition) (definitions : Definitions) (es : Operands) (path : String)
    (index : ℕ) (deps : Map String)
    → length (infer_operands owner definitions es path index deps).kinds ≡ count_operands es
unfolding infer_operands
count-kinds owner definitions nil path index deps = refl
count-kinds owner definitions (cons e es) path index deps = omega (
  arith,
  count-kinds owner definitions es path (suc index)
      (infer owner definitions e (indexed (dotted path "operands") index) deps).deps,
)

module _ (definitions : Definitions) (Inv : Evaluator → Type 0) (Fail : Error → Type 0)
    (mechanic : Reference) (owner : MechanicDefinition)
    (references : (id : RulesId) (d : MechanicDefinition) (s : Evaluator)
      → lookup id definitions ≡ some d
      → (d.world_id == owner.world_id) ≡ true
      → Inv s
      → Outcome Inv Fail (λ m. Shaped d.value_kind m.effective) (mechanic id s)) where
  Outcome-bind {ℓ κ} :
      {A : Type ℓ} {B : Type κ} (P : A → Type 0) (Q : B → Type 0) (m : Eval A) (f : A → Eval B)
      (s : Evaluator)
      → Outcome Inv Fail P (m s)
      → ((a : A) (s' : Evaluator) → P a → Inv s' → Outcome Inv Fail Q (f a s'))
      → Outcome Inv Fail Q ((m >>= f) s)
  Outcome-bind P Q m f s h g = go (m s) h
    where
      go :
          (r : Result _)
          → Outcome Inv Fail P r
          → Outcome Inv Fail Q (elim r [ ok (a, s') ↦ f a s' | err e ↦ err e ])
      go (ok (a, s')) h = g a s' h.0 h.1
      go (err e) h = h

  lift-Outcome :
      (P : MechanicValue → Type 0) (r : Result MechanicValue) (s : Evaluator)
      → Post P r
      → Inv s
      → Outcome Inv Fail P (lift r s)
  lift-Outcome P (ok v) s h inv = (h, inv)
  lift-Outcome P (err e) s h inv = inr h

  mutual
    unfolding evaluate_expression infer infer_node

    -- An expression in which inference finds no error evaluates to a value of the inferred kind, or
    -- it fails as a reference does or by an arithmetic error.
    pub evaluate_expression-Shaped :
        (e : Expression) (path : String) (deps : Map String) (s : Evaluator)
        → (infer owner definitions e path deps).errors ≡ []
        → Inv s
        → Outcome Inv Fail
            (λ (v, t). Shaped (infer owner definitions e path deps).kind v)
            (evaluate_expression mechanic e s)
    evaluate_expression-Shaped (node op_literal none id es) path deps s h inv =
        absurd (none-ne-some _ (infer_literal-Shaped none id (count_operands es) path deps h).1)
    evaluate_expression-Shaped (node op_literal (some v) id es) path deps s h inv =
        let (w, same, shaped) = infer_literal-Shaped (some v) id (count_operands es) path deps h in
        (subst (Shaped _) (sym (some-injective v w same)) shaped, inv)
    evaluate_expression-Shaped (node op_mechanic_reference literal id es) path deps s h inv =
        let (d, found, home, kind) =
          infer_reference-found owner definitions literal id (count_operands es) path deps h in
        Outcome-bind _ _ (mechanic id) _ s (references id d s found home inv)
          λ m s' shaped inv'. (subst (λ k. Shaped k m.effective) kind shaped, inv')
    evaluate_expression-Shaped (node op literal id es) path deps s h inv =
        let inner = infer_operands owner definitions es path 0 deps in
        let inside =
          infer_node-inside literal id (count_operands es) path inner owner definitions op deps refl
            h in
        Outcome-bind _ _ (evaluate_operands mechanic es) _ s
          (operands-Matches es path 0 deps s inside inv)
          λ (vs, ts) s' matched inv'.
            Outcome-bind _ _ (lift (evaluate_operation op vs)) _ s'
              (lift-Outcome _ (evaluate_operation op vs) s'
                (infer_node-Shaped literal id (count_operands es) path inner vs
                  (count-kinds owner definitions es path 0 deps) matched owner definitions op deps
                  refl h)
                inv')
              λ v s'' shaped inv''. (shaped, inv'')

    operands-Matches :
        (es : Operands) (path : String) (index : ℕ) (deps : Map String) (s : Evaluator)
        → (infer_operands owner definitions es path index deps).errors ≡ []
        → Inv s
        → Outcome Inv Fail
            (λ (vs, ts). Matches (infer_operands owner definitions es path index deps).kinds vs)
            (evaluate_operands mechanic es s)
    operands-Matches nil path index deps s h inv = (tt, inv)
    operands-Matches (cons e es) path index deps s h inv =
        let at = indexed (dotted path "operands") index in
        let first = infer owner definitions e at deps in
        let rest = infer_operands owner definitions es path (suc index) first.deps in
        let (here, later) = append-eq-nil first.errors rest.errors h in
        Outcome-bind _ _ (evaluate_expression mechanic e) _ s
          (evaluate_expression-Shaped e at deps s here inv)
          λ (v, t) s' shaped inv'.
            Outcome-bind _ _ (evaluate_operands mechanic es) _ s'
              (operands-Matches es path (suc index) first.deps s' later inv')
              λ (vs, ts) s'' matched inv''. ((shaped, matched), inv'')
