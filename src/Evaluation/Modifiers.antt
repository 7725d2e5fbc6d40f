-- ===== src/Evaluation/Modifiers.antt =====
-- resolvedModifiersByMechanic of internal/rules/evaluation.go, and the loop that applies the
-- modifiers of one mechanic.
use Prim.Native.String.{◌++◌ as join}
use mathlib.Core.Bool.{Bool}
use mathlib.Core.List.{List, [], ◌∷◌, ◌++◌, map}
use gezerah.Base.Tests.{◌==◌, string_eq, if◌then◌else◌}
use gezerah.Base.Int.{ltb_ℤ, int_eq}
use gezerah.Base.Map.{Map, insert}
use gezerah.Base.Text.{text_ltb, keyed}
use gezerah.Base.Sort.{sort}
use gezerah.Errors.{Result, ok, err, ◌>>=◌, evaluation_error, text_of_error}
use gezerah.Types.{
  RulesId, MechanicValue, InlineStatus, StatusInstance, StatusModifier, AppliedModifier,
}
use gezerah.Values.{clone_value}
use gezerah.Transition.Instances.{at_or}
use gezerah.Evaluation.Operations.{apply_modifier}

pub record ResolvedModifier : Type 0 where
  pub instance_of : StatusInstance
  pub status : InlineStatus
  pub modifier : StatusModifier

abbrev pub Resolved : Type 0
Resolved = Map (List ResolvedModifier)

-- The order of application: priority, applied order, instance, position, modifier.
unfoldable pub applies_before : ResolvedModifier → ResolvedModifier → Bool
applies_before a b =
    if a.modifier.priority == b.modifier.priority
    then (if a.instance_of.applied_order == b.instance_of.applied_order
        then (if a.instance_of.id == b.instance_of.id
            then (if a.modifier.position == b.modifier.position
                then text_ltb a.modifier.id b.modifier.id
                else ltb_ℤ a.modifier.position b.modifier.position)
            else text_ltb a.instance_of.id b.instance_of.id)
        else ltb_ℤ a.instance_of.applied_order b.instance_of.applied_order)
    else ltb_ℤ a.modifier.priority b.modifier.priority

-- InlineStatus{}
abbrev pub zero_status : InlineStatus
zero_status = record { id = ""; world_id = ""; modifiers = [] }

unfoldable pub add_modifiers :
    StatusInstance → InlineStatus → List StatusModifier → Resolved → Resolved
add_modifiers i s [] groups = groups
add_modifiers i s (m ∷ ms) groups = add_modifiers i s ms (
    insert m.mechanic_id
      (at_or groups m.mechanic_id [] ++ record { instance_of = i; status = s; modifier = m } ∷ [])
      groups)

unfoldable pub add_instances : Map InlineStatus → List StatusInstance → Resolved → Resolved
add_instances statuses [] groups = groups
add_instances statuses (i ∷ is) groups =
    let s = at_or statuses i.source_effect_id zero_status in
    add_instances statuses is (add_modifiers i s s.modifiers groups)

-- resolvedModifiersByMechanic
unfoldable pub resolved_modifiers : Map InlineStatus → List StatusInstance → Resolved
resolved_modifiers statuses instances =
    map {B = RulesId × List ResolvedModifier} (λ (id, ms). (id, sort applies_before ms))
      (add_instances statuses instances [])

unfoldable pub applied : ResolvedModifier → MechanicValue → MechanicValue → AppliedModifier
applied r before after = record {
  status_instance_id = r.instance_of.id;
  source_effect_id = r.status.id;
  modifier_id = r.modifier.id;
  priority = r.modifier.priority;
  position = r.modifier.position;
  operation = r.modifier.operation;
  operand = clone_value r.modifier.value;
  before = clone_value before;
  after = clone_value after;
}

-- The error of a modifier, wrapped.
abbrev pub modifier_result : ResolvedModifier → Result MechanicValue → Result MechanicValue
modifier_result r (ok v) = ok v
modifier_result r (err e) = err (
    evaluation_error
      (join (keyed "active_status_instances" r.instance_of.id) (keyed ".modifiers" r.modifier.id))
      (text_of_error e))

-- The loop over the modifiers of a mechanic: the effective value and the record of each step.
unfoldable pub apply_modifiers :
    List ResolvedModifier → MechanicValue → Result (MechanicValue × List AppliedModifier)
apply_modifiers [] value = ok (value, [])
apply_modifiers (r ∷ rs) value = do
  after ← modifier_result r (apply_modifier value r.modifier)
  (effective, steps) ← apply_modifiers rs after
  ok (effective, applied r value after ∷ steps)
