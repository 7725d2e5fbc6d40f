-- ===== src/Evaluation/Total.antt =====
-- The fuel of the evaluator suffices: its recursion opens each mechanic at most once.
use Prim.Native.Nat.{ℕ, zero, suc, ◌≤◌, ◌<◌}
use mathlib.Core.Bool.{true, false}
use mathlib.Core.List.{[]}
use mathlib.Core.Logic.{inl, inr}
use mathlib.Core.Option.{none, some}
use mathlib.Core.Path.{◌≡◌, refl}
use native.Mathlib.Omega.{arith}
use gezerah.Base.Tests.{◌==◌, nat_beq, string_eq, Bool-cases, Option-cases}
use gezerah.Base.Map.{Map, lookup, insert}
use gezerah.Errors.{Error, Result, ok, err, evaluation_error}
use gezerah.Types.{
  RulesId, MechanicValue, MechanicDefinition, SourceKind, source_input, source_derived,
  source_other, derived, EvaluatedMechanic, op_literal, op_mechanic_reference, Expression, node,
  Operands, nil, cons, ExpressionTrace,
}
use gezerah.State.{Definitions}
use gezerah.Transition.Instances.{at_or}
use gezerah.Evaluation.Operations.{evaluate_operation}
use gezerah.Evaluation.Evaluator.{
  Setting, Evaluator, Eval, Reference, Intrinsic, lift, ◌>>=◌, evaluate_expression,
  evaluate_operands, expression_error, derive, intrinsic_of, finish, open_mechanic, close_mechanic,
  evaluate_open, evaluate_mechanic, cycle_error,
}
use gezerah.Evaluation.Plain.{is_fuel, NoFuel, evaluate_operation-NoFuel, apply_modifiers-NoFuel}
use gezerah.Evaluation.Measure.{is_new, unopened, Grows, Grows-insert, unopened-le, unopened-insert}

-- A call that did not run out of fuel, and that left every opened mechanic open or closed.
abbrev pub Settles {ℓ} : {A : Type ℓ} → Map ℕ → Result (A × Evaluator) → Type 0
Settles before (ok (a, s)) = Grows before s.states
Settles before (err e) = is_fuel e ≡ false

Settles-from {ℓ} :
    {A : Type ℓ} (a b : Map ℕ) (r : Result (A × Evaluator)) → Grows a b → Settles b r → Settles a r
Settles-from a b (ok (x, s)) g h = λ id new. g id (h id new)
Settles-from a b (err e) g h = h

module _ (definitions : Definitions) (bound : ℕ) where
  -- A method that settles from every state with at most `bound` unopened mechanics.
  abbrev pub Method {ℓ} : {A : Type ℓ} → Eval A → Type 0
  Method m = (s : Evaluator) → unopened definitions s.states ≤ bound → Settles s.states (m s)

  Method-bind {ℓ κ} :
      {A : Type ℓ} {B : Type κ} (m : Eval A) (f : A → Eval B)
      → Method m
      → ((a : A) → Method (f a))
      → Method (m >>= f)
  Method-bind m f hm hf s few = go (m s) (hm s few)
    where
      go :
          (r : Result _)
          → Settles s.states r
          → Settles s.states (elim r [ ok (a, s') ↦ f a s' | err e ↦ err e ])
      go (ok (a, s')) h =
          Settles-from s.states s'.states (f a s') h
            (hf a s' (omega (arith, unopened-le definitions s.states s'.states h)))
      go (err e) h = h

  Method-lift {ℓ} : {A : Type ℓ} (r : Result A) → NoFuel r → Method (lift r)
  Method-lift (ok a) h s few = λ id new. new
  Method-lift (err e) h s few = h

  module _ (mechanic : Reference) (settles : (id : RulesId) → Method (mechanic id)) where
    mutual
      unfolding evaluate_expression

      expression-Method : (e : Expression) → Method (evaluate_expression mechanic e)
      expression-Method (node op_literal none id operands) s few = refl
      expression-Method (node op_literal (some v) id operands) s few = λ j new. new
      expression-Method (node op_mechanic_reference literal id operands) s few =
          Method-bind (mechanic id) _ (settles id) (λ m t _ j new. new) s few
      expression-Method (node op literal id operands) s few =
          Method-bind (evaluate_operands mechanic operands) _ (operands-Method operands)
            (λ (values, traces).
              Method-bind (lift (evaluate_operation op values)) _
                (Method-lift (evaluate_operation op values) (evaluate_operation-NoFuel op values))
                (λ v t _ j new. new))
            s few

      operands-Method : (es : Operands) → Method (evaluate_operands mechanic es)
      operands-Method nil s few = λ j new. new
      operands-Method (cons e es) s few =
          Method-bind (evaluate_expression mechanic e) _ (expression-Method e)
            (λ (v, t).
              Method-bind (evaluate_operands mechanic es) _ (operands-Method es)
                (λ (vs, ts) t' _ j new. new))
            s few

    expression_error-fuel :
        (id : RulesId) (e : Error) → is_fuel e ≡ false → is_fuel (expression_error id e) ≡ false
    unfolding evaluation_error
    expression_error-fuel id e h = ground arith

    derive-Method :
        (setting : Setting) (id : RulesId) (e : Expression) → Method (derive setting mechanic id e)
    unfolding derive
    derive-Method setting id e s few =
        go (evaluate_expression mechanic e s) (expression-Method e s few)
      where
        go :
            (r : Result ((MechanicValue × ExpressionTrace) × Evaluator))
            → Settles s.states r
            → Settles {A = Intrinsic} s.states (elim r [
              | ok ((v, t), s') ↦ ok ((derived, v, some t), s')
              | err error ↦ err (expression_error id error)
            ])
        go (ok ((v, t), s')) h = h
        go (err error) h = expression_error-fuel id error h

    intrinsic_of-Method :
        (setting : Setting) (id : RulesId) (d : MechanicDefinition)
        → Method (intrinsic_of setting mechanic id d)
    unfolding intrinsic_of evaluation_error
    intrinsic_of-Method setting id d = by_source d.source_kind refl
      where
        by_source :
            (k : SourceKind) → d.source_kind ≡ k → Method (intrinsic_of setting mechanic id d)
        by_source source_input e s few = rw (e, intrinsic_of) (λ j new. new)
        by_source source_derived e s few = elim (Option-cases d.expression) [
          | inl missing ↦ rw (e, missing, intrinsic_of) refl
          | inr (x, there) ↦ rw (e, there, intrinsic_of) (derive-Method setting id x s few)
        ]
        by_source (source_other o) e s few = rw (e, intrinsic_of) refl

  finish-NoFuel :
      (setting : Setting) (id : RulesId) (d : MechanicDefinition) (i : Intrinsic)
      → NoFuel (finish setting id d i)
  unfolding finish evaluation_error
  finish-NoFuel setting id d (presence, value, t) =
      ground (arith, apply_modifiers-NoFuel (at_or setting.modifiers_by_mechanic id []) value)

  module _ (mechanic : Reference) (settles : (id : RulesId) → Method (mechanic id)) where
    -- The part behind the checks, at a mechanic that was not opened before.
    evaluate_open-Settles :
        (setting : Setting) (id : RulesId) (d : MechanicDefinition) (s : Evaluator)
        → unopened definitions (insert id 1 s.states) ≤ bound
        → Settles s.states (evaluate_open setting mechanic id d s)
    unfolding evaluate_open
    evaluate_open-Settles setting id d s few =
        go (intrinsic_of setting mechanic id d (open_mechanic id s))
          (intrinsic_of-Method mechanic settles setting id d (open_mechanic id s) few)
      where
        closed :
            (s' : Evaluator) (r : Result EvaluatedMechanic)
            → Grows (insert id 1 s.states) s'.states
            → NoFuel r
            → Settles {A = EvaluatedMechanic} s.states
                (elim r [ err e ↦ err e | ok m ↦ ok (m, close_mechanic id m s') ])
        closed s' (ok m) h _ = λ j new.
            Grows-insert s.states id 1 refl j (h j (Grows-insert s'.states id 2 refl j new))
        closed s' (err e) h none_left = none_left

        go :
            (r : Result (Intrinsic × Evaluator))
            → Settles (insert id 1 s.states) r
            → Settles {A = EvaluatedMechanic} s.states (elim r [
              | err e ↦ err e
              | ok (i, s') ↦ elim (finish setting id d i) [
                | err e ↦ err e
                | ok m ↦ ok (m, close_mechanic id m s')
              ]
            ])
        go (ok (i, s')) h = closed s' (finish setting id d i) h (finish-NoFuel setting id d i)
        go (err e) h = h

-- evaluateMechanic settles with more fuel than there are unopened definitions.
pub evaluate_mechanic-Settles :
    (setting : Setting) (fuel : ℕ) (id : RulesId) (s : Evaluator)
    → unopened setting.definitions s.states < fuel
    → Settles s.states (evaluate_mechanic setting fuel id s)
unfolding evaluate_mechanic cycle_error evaluation_error
evaluate_mechanic-Settles setting zero id s few = absurd (omega arith)
evaluate_mechanic-Settles setting (suc fuel) id s few =
    elim (Bool-cases (nat_beq (at_or s.states id 0) 2)) [
      | inl done ↦ rw (done, evaluate_mechanic) (λ j new. new)
      | inr not_done ↦ elim (Bool-cases (nat_beq (at_or s.states id 0) 1)) [
        | inl active ↦ rw (not_done, active, evaluate_mechanic) refl
        | inr not_active ↦ elim (Option-cases (lookup id setting.definitions)) [
          | inl absent ↦ rw (not_done, not_active, absent, evaluate_mechanic) refl
          | inr (d, found) ↦ elim (Bool-cases (d.world_id == setting.entity.world_id)) [
            | inl near ↦
                rw (not_done, not_active, found, near, evaluate_mechanic)
                  (evaluate_open-Settles setting.definitions
                    (unopened setting.definitions (insert id 1 s.states))
                    (evaluate_mechanic setting fuel)
                    (λ id' s' few'. evaluate_mechanic-Settles setting fuel id' s' (
                      omega (
                        arith,
                        few',
                        few,
                        unopened-insert setting.definitions s.states id d found
                            (untouched not_active not_done),
                      )))
                    setting id d s (omega arith))
            | inr far ↦ rw (not_done, not_active, found, far, evaluate_mechanic) refl
          ]
        ]
      ]
    ]
  where
    untouched :
        nat_beq (at_or s.states id 0) 1 ≡ false
        → nat_beq (at_or s.states id 0) 2 ≡ false
        → is_new s.states id ≡ true
    untouched a b = rw (a, b) refl
