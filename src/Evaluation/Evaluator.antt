-- ===== src/Evaluation/Evaluator.antt =====
-- The entityEvaluator of internal/rules/evaluation.go: memoised evaluation of mechanics through
-- their expressions, with the detection of runtime cycles. A method takes fuel, one for each
-- mechanic that may be open.
use Prim.Native.Nat.{ℕ, zero, suc}
use Prim.Native.String.{String, ◌++◌ as join}
use mathlib.Core.Bool.{◌||◌, not}
use mathlib.Core.List.{List, [], ◌∷◌, ◌++◌}
use mathlib.Core.Option.{Option, none, some}
use mathlib.Core.Option as Option
use gezerah.Base.Tests.{◌==◌, nat_beq, string_eq, if◌then◌else◌}
use gezerah.Base.Lists.{length, drop}
use gezerah.Base.Map.{Map, lookup, insert, delete}
use gezerah.Base.Text.{keyed, join_texts}
use gezerah.Errors.{
  Error, Result, ok, err, plain, out_of_fuel, evaluation_error, is_evaluation_error, text_of_error,
}
use gezerah.Types.{
  RulesId, kind_eq, MechanicValue, zero_value, MechanicDefinition, Entity, source_input,
  source_derived, source_other, InputOverrideRecord, EvaluationPresence, derived, EvaluatedMechanic,
  op_literal, op_mechanic_reference, Expression, node, Operands, nil, cons, ExpressionTrace, trace,
  Traces, no_traces, more_traces,
}
use gezerah.Values.{clone_value, valid_shape}
use gezerah.State.{Definitions, resolve_input}
use gezerah.Graph.Cycles.{drop_last}
use gezerah.Transition.Instances.{at_or}
use gezerah.Evaluation.Operations.{evaluate_operation}
use gezerah.Evaluation.Modifiers.{Resolved, apply_modifiers}

-- The fields that no method writes.
pub record Setting : Type 0 where
  pub entity : Entity
  pub input_overrides : InputOverrideRecord
  pub definitions : Definitions
  pub modifiers_by_mechanic : Resolved

-- The fields that the methods write. A state is 0 before a visit, 1 during it and 2 behind it.
pub record Evaluator : Type 0 where
  pub states : Map ℕ
  pub values : Map EvaluatedMechanic
  pub stack : List RulesId
  pub stack_indexes : Map ℕ

-- A method: its error ends the whole evaluation, and the state is then not read again.
abbrev pub Eval {ℓ} : Type ℓ → Type ℓ
Eval A = Evaluator → Result (A × Evaluator)

module _ {ℓ κ} {A : Type ℓ} {B : Type κ} where
  infixl 5 ◌>>=◌
  abbrev pub ◌>>=◌ : Eval A → (A → Eval B) → Eval B
  ◌>>=◌ m f s = elim (m s) [ ok (a, s') ↦ f a s' | err e ↦ err e ]

module _ {ℓ} {A : Type ℓ} where
  abbrev pub pure : A → Eval A
  pure a s = ok (a, s)

  abbrev pub lift : Result A → Eval A
  lift r s = elim r [ ok a ↦ ok (a, s) | err e ↦ err e ]

abbrev pub Reference : Type 0
Reference = RulesId → Eval EvaluatedMechanic

-- evaluateExpression, over the method that evaluates a mechanic.
unfoldable mutual
  pub evaluate_expression : Reference → Expression → Eval (MechanicValue × ExpressionTrace)
  evaluate_expression mechanic (node op literal id operands) =
      let kept = Option.map clone_value literal in
      elim op [
        | op_literal ↦ elim literal [
          | none ↦ lift (err (plain "literal expression has no value"))
          | some v ↦ pure (clone_value v, trace op_literal id kept no_traces (clone_value v))
        ]
        | op_mechanic_reference ↦ do
          m ← mechanic id
          pure (
            clone_value m.effective,
            trace op_mechanic_reference id kept no_traces (clone_value m.effective),
          )
        | other ↦ do
          (values, traces) ← evaluate_operands mechanic operands
          v ← lift (evaluate_operation other values)
          pure (clone_value v, trace other id kept traces (clone_value v))
      ]

  pub evaluate_operands : Reference → Operands → Eval (List MechanicValue × Traces)
  evaluate_operands mechanic nil = pure ([], no_traces)
  evaluate_operands mechanic (cons e es) = do
    (v, t) ← evaluate_expression mechanic e
    (vs, ts) ← evaluate_operands mechanic es
    pure (v ∷ vs, more_traces t ts)

abbrev pub mechanic_path : RulesId → String
mechanic_path id = keyed "mechanics" id

-- The error of a mechanic that is on the stack.
unfoldable pub cycle_error : RulesId → Evaluator → Error
cycle_error id s = evaluation_error (mechanic_path id) (
    join "runtime dependency cycle: "
      (join_texts " -> " (drop (at_or s.stack_indexes id 0) s.stack ++ id ∷ [])))

abbrev pub open_mechanic : RulesId → Evaluator → Evaluator
open_mechanic id s = record s {
  states = insert id 1 s.states;
  stack_indexes = insert id (length s.stack) s.stack_indexes;
  stack = s.stack ++ id ∷ [];
}

-- The deferred pop, behind the two writes of a successful call.
abbrev pub close_mechanic : RulesId → EvaluatedMechanic → Evaluator → Evaluator
close_mechanic id evaluated s = record s {
  values = insert id evaluated s.values;
  states = insert id 2 s.states;
  stack = drop_last s.stack;
  stack_indexes = delete id s.stack_indexes;
}

-- The error of an expression: one of the evaluation as it is, any other wrapped.
abbrev pub expression_error : RulesId → Error → Error
expression_error id out_of_fuel = out_of_fuel
expression_error id e =
    if is_evaluation_error e
    then e
    else evaluation_error (join (mechanic_path id) ".expression") (text_of_error e)

-- EvaluatedMechanic{}, which Go reads at a missing key.
abbrev pub zero_evaluated : EvaluatedMechanic
zero_evaluated = record {
  mechanic_id = "";
  source_kind = source_other "";
  presence = derived;
  intrinsic = zero_value;
  effective = zero_value;
  expression = none;
  modifiers = [];
}

-- The presence, the intrinsic value and the trace of a mechanic.
abbrev pub Intrinsic : Type 0
Intrinsic = EvaluationPresence × MechanicValue × Option ExpressionTrace

module _ (setting : Setting) where
  open setting use {entity, input_overrides, definitions, modifiers_by_mechanic}

  -- The call of evaluateExpression, with its errors wrapped.
  unfoldable pub derive : Reference → RulesId → Expression → Eval Intrinsic
  derive mechanic id e s = elim (evaluate_expression mechanic e s) [
    | ok ((v, t), s') ↦ ok ((derived, v, some t), s')
    | err error ↦ err (expression_error id error)
  ]

  -- The switch on the source.
  unfoldable pub intrinsic_of : Reference → RulesId → MechanicDefinition → Eval Intrinsic
  intrinsic_of mechanic id d = elim d.source_kind [
    | source_input ↦
        let logical = resolve_input input_overrides d in
        pure (logical.presence, clone_value logical.value, none)
    | source_derived ↦ elim d.expression [
      | none ↦ lift (
          err (
            evaluation_error (join (mechanic_path id) ".expression")
              "derived mechanic has no expression"))
      | some e ↦ derive mechanic id e
    ]
    | source_other k ↦ lift (
        err (
          evaluation_error (join (mechanic_path id) ".source_kind")
            "mechanic has an unsupported source kind"))
  ]

  -- From the intrinsic value on: the check of its kind, and the modifiers.
  unfoldable pub finish : RulesId → MechanicDefinition → Intrinsic → Result EvaluatedMechanic
  finish id d (presence, value, t) =
      if not (value.kind == d.value_kind) || not (valid_shape value)
      then err (
          evaluation_error (mechanic_path id)
            "intrinsic value does not match the mechanic's scalar kind")
      else elim (apply_modifiers (at_or modifiers_by_mechanic id []) (clone_value value)) [
        | err e ↦ err e
        | ok (effective, steps) ↦ ok (record {
          mechanic_id = id;
          source_kind = d.source_kind;
          presence = presence;
          intrinsic = value;
          effective = clone_value effective;
          expression = t;
          modifiers = steps;
        })
      ]

  -- The part of evaluateMechanic behind the checks.
  unfoldable pub evaluate_open : Reference → RulesId → MechanicDefinition → Eval EvaluatedMechanic
  evaluate_open mechanic id d s = elim (intrinsic_of mechanic id d (open_mechanic id s)) [
    | err e ↦ err e
    | ok (i, s') ↦ elim (finish id d i) [ err e ↦ err e | ok m ↦ ok (m, close_mechanic id m s') ]
  ]

  -- evaluateMechanic
  unfoldable pub evaluate_mechanic : ℕ → RulesId → Eval EvaluatedMechanic
  evaluate_mechanic zero id s = err out_of_fuel
  evaluate_mechanic (suc fuel) id s =
      let state = at_or s.states id 0 in
      let fresh : Result (EvaluatedMechanic × Evaluator) = elim (lookup id definitions) [
        | none ↦ err (
            evaluation_error (mechanic_path id)
              "referenced mechanic is absent from the compiled graph")
        | some d ↦
            if d.world_id == entity.world_id
            then evaluate_open (evaluate_mechanic fuel) id d s
            else err
                (evaluation_error (mechanic_path id) "referenced mechanic belongs to another world")
      ] in
      if nat_beq state 2
      then ok (at_or s.values id zero_evaluated, s)
      else if nat_beq state 1
      then err (cycle_error id s)
      else fresh
