-- ===== src/Samples/Witnesses.antt =====
-- The theorems at concrete inputs.
use Prim.Native.Nat.{ℕ, ◌+◌, max}
use mathlib.Core.Bool.{true, false}
use mathlib.Core.List.{List, [], ◌∷◌, ◌++◌}
use mathlib.Core.Logic.{◌⊎◌, ◌≢◌}
use mathlib.Core.Option.{some, none}
use mathlib.Core.Path.{◌≡◌, refl}
use native.Mathlib.Omega.{arith}
use gezerah.Decimal.Parse.{Decimal}
use gezerah.Decimal.Ops.{add, subtract, multiply, negate, decimal_scale}
use gezerah.Decimal.Range.{Scaled}
use gezerah.Decimal.Arithmetic.{arithmetic_lem}
use gezerah.Base.Text.{codes}
use gezerah.Base.Int.{ℤ, pos, ◌≤ℤ◌, ◌<ℤ◌}
use gezerah.Base.Lists.{All, get_elem?}
use gezerah.Base.Map.{lookup, Entries, Distinct}
use gezerah.Errors.{
  Result, ok, err, out_of_fuel, domain, err_invalid_definition, ValidationError, ValidationErrors,
}
use gezerah.Types.{
  RulesId, ConcreteEffect, effect_remove_status, MechanicDefinition, EntityEvaluation,
  MechanicGraph, StatusInstance, InputOverrideRecord, stored_override, authored_default,
  source_derived, node, nil, op_mechanic_reference,
}
use gezerah.Values.{values_equal}
use gezerah.State.{is_derived, resolve_input, normalize_record, validate_snapshot}
use gezerah.State.Validity.{ValidOverride}
use gezerah.State.Normalize.{resolve_input-normalize_record}
use gezerah.Effects.Keeps.{apply_scalar-valid}
use gezerah.Effects.Frame.{apply_scalar-frame, resolve_input-apply_scalar_set}
use gezerah.Transition.Instances.{find_instance, next_applied_order, matches_instance, max_int64}
use gezerah.Transition.Orders.{BelowOrder, next_applied_order-total, find_instance_lem}
use gezerah.Transition.Validity.{apply_transition-valid}
use gezerah.Evaluation.Entity.{evaluate_entity_with_graph, evaluate_entity}
use gezerah.Evaluation.Terminates.{evaluate_entity_with_graph-ne-out_of_fuel}
use gezerah.Base.Tests.{◌==◌, string_eq}
use gezerah.Statuses.{seen}
use gezerah.Graph.Compile.{validate_graph, compile_graph}
use gezerah.Graph.Total.{compile_graph_lem}
use gezerah.Evaluation.Kinds.Entities.{Evaluated, evaluate_entity-Evaluated}
use gezerah.Evaluation.Complete.{NoRepeat, evaluate_entity_with_graph-order}
use gezerah.Transition.Apply.{Working, record_applied, remove_target}
use gezerah.Transition.Lifecycle.{apply_target_lem, remove_target-apply_target}
use gezerah.Transition.Untouched.{apply_transition-frame}
use gezerah.Samples.Program.{program}
use gezerah.Transition.Run.{start_working}
use gezerah.Samples.World.{
  bless_hero, plain_effect, number, strength, reach, mechanics, hero, entities, hero_record,
  statuses, blessed, plan, snapshot, set_strength, raise_strength,
}
use gezerah.Samples.Runs.{outcome}

apply_transition-valid_example : validate_snapshot outcome.input_overrides entities mechanics ≡ []
unfolding program
apply_transition-valid_example =
    apply_transition-valid plan entities mechanics statuses snapshot outcome refl

-- A graph whose two mechanics refer to each other, which CompileMechanicGraph would refuse.
abbrev graph : MechanicGraph
graph = record {
  definitions = some (
      (
        "strength",
        record strength {
          source_kind = source_derived;
          expression = some (node op_mechanic_reference none "reach" nil);
        },
      )
      ∷ ("reach", reach)
      ∷ []);
  order = "reach" ∷ [];
  dependencies = [];
}

evaluate_entity_with_graph-ne-out_of_fuel_example :
    evaluate_entity_with_graph hero hero_record graph statuses
      (record blessed { applied_order = pos 1 } ∷ [])
    ≢ err out_of_fuel
evaluate_entity_with_graph-ne-out_of_fuel_example =
    evaluate_entity_with_graph-ne-out_of_fuel hero hero_record graph statuses
      (record blessed { applied_order = pos 1 } ∷ [])

-- The record that holds the default of strength.
abbrev default_record : InputOverrideRecord
default_record = record hero_record { overrides = ("strength", number "3") ∷ [] }

resolve_input-normalize_record_example :
    (resolve_input (normalize_record default_record mechanics) strength
      ≡ resolve_input default_record strength)
    ⊎ ((resolve_input (normalize_record default_record mechanics) strength
          ≡ record { presence = authored_default; value = number "3" })
        × ((resolve_input default_record strength).presence ≡ stored_override)
        × (is_derived strength.source_kind ≡ false)
        × (values_equal (resolve_input default_record strength).value (number "3") ≡ true))
unfolding program
resolve_input-normalize_record_example =
    resolve_input-normalize_record mechanics default_record strength (refl, tt) refl

abbrev raised : InputOverrideRecord
raised = record hero_record { overrides = ("strength", number "8.5") ∷ [] }

apply_scalar-valid_example : Entries (ValidOverride hero mechanics) raised.overrides
unfolding program
apply_scalar-valid_example =
    apply_scalar-valid hero hero mechanics raise_strength strength hero_record raised refl refl refl
      refl refl (refl, tt)

apply_scalar-frame_example :
    (raised.entity_id ≡ hero_record.entity_id)
    × (raised.revision ≡ hero_record.revision)
    × Distinct raised.overrides
    × ((id : RulesId)
        → strength.id ≢ id
        → lookup id raised.overrides ≡ lookup id hero_record.overrides)
unfolding program
apply_scalar-frame_example =
    apply_scalar-frame raise_strength strength hero hero_record raised (refl, tt) refl refl

abbrev set_record : InputOverrideRecord
set_record = record hero_record { overrides = ("strength", number "2") ∷ [] }

resolve_input-apply_scalar_set_example :
    (resolve_input set_record strength ≡ record { presence = stored_override; value = number "2" })
    ⊎ ((resolve_input set_record strength
          ≡ record { presence = authored_default; value = number "3" })
        × (values_equal (number "2") (number "3") ≡ true)
        × (lookup "strength" set_record.overrides ≡ none))
unfolding program
resolve_input-apply_scalar_set_example =
    resolve_input-apply_scalar_set set_strength strength hero (number "2") hero_record set_record
      (refl, tt) refl refl refl

abbrev instances : List StatusInstance
instances =
    record blessed { applied_order = pos 4 }
    ∷ record blessed { id = "i2"; applied_order = pos 7 }
    ∷ record blessed { id = "i3"; entity_id = "villain"; applied_order = pos 9 }
    ∷ []

next_applied_order-total_example :
    (order : ℤ) × (next_applied_order instances "hero" ≡ ok order) × (order ≤ℤ max_int64)
next_applied_order-total_example =
    next_applied_order-total instances "hero"
      ((λ _. omega arith), ((λ _. omega arith), ((λ _. omega arith), tt)))

find_instance_lem_example :
    ((n : ℕ) × (i : StatusInstance) × (find_instance instances "hero" "i2" ≡ some n)
      × (get_elem? instances n ≡ some i)
      × (matches_instance "hero" "i2" i ≡ true))
    ⊎ ((find_instance instances "hero" "i2" ≡ none)
        × All (λ i. matches_instance "hero" "i2" i ≡ false) instances)
find_instance_lem_example = find_instance_lem instances "hero" "i2"

compile_graph_lem_example :
    ((validate_graph mechanics ≡ some [])
      × (g : MechanicGraph) × (compile_graph mechanics ≡ ok g)
      × (g.definitions ≡ some mechanics))
    ⊎ ((e : ValidationError) × (es : ValidationErrors) × (validate_graph mechanics ≡ some (e ∷ es))
        × (compile_graph mechanics
            ≡ err (domain (record { kind = err_invalid_definition; errors = e ∷ es }))))
compile_graph_lem_example = compile_graph_lem mechanics

apply_transition-frame_example :
    (lookup "villain" outcome.input_overrides.by_entity
      ≡ lookup "villain" snapshot.input_overrides.by_entity)
    × All (λ j. (j == "villain") ≡ false) outcome.changed_entity_ids
unfolding program
apply_transition-frame_example =
    apply_transition-frame plan entities mechanics statuses snapshot outcome "villain"
      ((λ _. (refl, tt)), ((λ _. (refl, tt)), ((λ _. (refl, tt)), tt))) refl

-- The graph of the small world, with an order that names nothing.
abbrev disordered : MechanicGraph
disordered = record { definitions = some mechanics; order = []; dependencies = [] }

abbrev no_evaluation : EntityEvaluation
no_evaluation = record { entity_id = ""; revision = pos 0; order = []; values = [] }

abbrev value_of : Result EntityEvaluation → EntityEvaluation
value_of (ok e) = e
value_of (err e) = no_evaluation

abbrev evaluated : EntityEvaluation
evaluated = value_of (
    evaluate_entity_with_graph hero hero_record disordered statuses
      (record blessed { applied_order = pos 1 } ∷ []))

evaluate_entity_with_graph-order_example :
    NoRepeat evaluated.order
    × ((id : RulesId) (d : MechanicDefinition)
        → lookup id mechanics ≡ some d
        → (d.world_id == "w") ≡ true
        → seen id evaluated.order ≡ true)
unfolding program
evaluate_entity_with_graph-order_example =
    evaluate_entity_with_graph-order hero hero_record disordered statuses
      (record blessed { applied_order = pos 1 } ∷ []) mechanics evaluated refl refl

-- A working copy in which the hero has one instance.
abbrev working : Working
working = start_working (record snapshot {
  status_instances = record blessed { id = "i2"; applied_order = pos 7 } ∷ [];
})

abbrev blessed_working : Working
blessed_working =
    record_applied entities bless_hero "hero" (record blessed { applied_order = pos 8 }) working

apply_target_lem_example :
    (i : StatusInstance) × (blessed_working.statuses ≡ working.statuses ++ i ∷ [])
    × (i ≡ record blessed { applied_order = i.applied_order })
    × All (λ j. matches_instance "hero" i.id j ≡ false) working.statuses
    × (pos 0 ≡ pos 0
        → (pos 0 <ℤ i.applied_order) × All (BelowOrder i.applied_order "hero") working.statuses)
unfolding program
apply_target_lem_example = apply_target_lem entities bless_hero "hero" working blessed_working refl

abbrev unbless : ConcreteEffect
unbless = record (plain_effect "unbless" (pos 3) effect_remove_status) {
  status_instance_ids = ("hero", "i1") ∷ [];
}

remove_target-apply_target_example :
    (w : Working) × (remove_target entities unbless "hero" blessed_working ≡ ok w)
    × (w.statuses ≡ working.statuses)
unfolding program
remove_target-apply_target_example =
    remove_target-apply_target entities bless_hero unbless "hero" working blessed_working refl refl
      refl

evaluate_entity-Evaluated_example :
    Evaluated mechanics (evaluate_entity hero hero_record mechanics statuses (blessed ∷ []))
    × (evaluate_entity hero hero_record mechanics statuses (blessed ∷ []) ≢ err out_of_fuel)
evaluate_entity-Evaluated_example =
    evaluate_entity-Evaluated hero hero_record mechanics statuses (blessed ∷ [])

abbrev half : Decimal
half = record { canonical = codes "0.5" }

abbrev quarter : Decimal
quarter = record { canonical = codes "-0.25" }

arithmetic_lem_example :
    Scaled (max (decimal_scale (codes "0.5")) (decimal_scale (codes "-0.25"))) (add half quarter)
    × Scaled
        (max (decimal_scale (codes "0.5")) (decimal_scale (codes "-0.25")))
        (subtract half quarter)
    × Scaled (decimal_scale (codes "0.5") + decimal_scale (codes "-0.25")) (multiply half quarter)
    × Scaled (decimal_scale (codes "0.5")) (negate half)
arithmetic_lem_example = arithmetic_lem half quarter
