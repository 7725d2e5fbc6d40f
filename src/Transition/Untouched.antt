-- ===== src/Transition/Untouched.antt =====
-- What a transition leaves alone: the records of the entities that no scalar effect targets.
use mathlib.Core.Bool.{Bool, true, false}
use mathlib.Core.List.{List}
use mathlib.Core.Logic.{inl, inr}
use mathlib.Core.Path.{◌≡◌, refl, subst}
use native.Mathlib.Omega.{arith}
use gezerah.Base.Tests.{◌==◌, string_eq, Bool-cases}
use gezerah.Base.Lists.{All, All-Unit}
use gezerah.Base.Map.{Map, lookup, lookup-insert}
use gezerah.Base.Sort.{All-sort, All-sort_texts}
use gezerah.Errors.{ok, ok-injective, >>=-eq-ok}
use gezerah.Types.{
  RulesId, Entity, MechanicDefinition, InlineStatus, InputOverrideRecord, ConcreteEffect,
  TransitionPlan, RuntimeSnapshot, RuntimeTransitionResult, EffectOperation, effect_set,
  effect_adjust_number,
}
use gezerah.Effects.{stored_changed, apply_scalar}
use gezerah.State.{Definitions}
use gezerah.Statuses.{seen}
use gezerah.Transition.Instances.{at_or, zero_entity}
use gezerah.Transition.Apply.{
  Working, zero_record, scalar_target, apply_target, remove_target, record_scalar, apply_effect,
  apply_effects, ordered_instance, add_instance, record_applied, record_removed, mark_changed,
}
use gezerah.Transition.Checks.{clone-records}
use gezerah.Transition.Loop.{each_target-keeps, apply_effects-keeps, apply_effect-cases}
use gezerah.Transition.Run.{
  apply_transition, check_transition, sort_effects, start_working, result_of,
}

abbrev pub is_scalar : EffectOperation → Bool
is_scalar effect_set = true
is_scalar effect_adjust_number = true
is_scalar _ = false

abbrev pub Other : RulesId → RulesId → Type 0
Other id j = (j == id) ≡ false

-- The effect is not a scalar one, or it does not target the entity.
abbrev pub Spares : RulesId → ConcreteEffect → Type 0
Spares id e = is_scalar e.operation ≡ true → All (Other id) e.entity_ids

module _ (entities : Map Entity) (mechanics : Definitions) (id : RulesId)
    (start : Map InputOverrideRecord) where
  -- The working copy still holds the first record of the entity, and no change of it.
  abbrev IsUntouched : Working → Type 0
  IsUntouched w = (lookup id w.overrides ≡ lookup id start) × All (Other id) w.changed

  mark_changed-Other :
      (changed : Bool) (j : RulesId) (ids : List RulesId)
      → Other id j
      → All (Other id) ids
      → All (Other id) (mark_changed changed j ids)
  mark_changed-Other false j ids other all = all
  mark_changed-Other true j ids other all = elim (Bool-cases (seen j ids)) [
    | inl e ↦ rw e all
    | inr e ↦ rw e (other, all)
  ]

  record_scalar-IsUntouched :
      (e : ConcreteEffect) (d : MechanicDefinition) (j : RulesId)
      (before after : InputOverrideRecord) (w : Working)
      → Other id j
      → IsUntouched w
      → IsUntouched (record_scalar e d j before after w)
  unfolding record_scalar
  record_scalar-IsUntouched e d j before after w other kept = (
    ground (arith, other, kept.0, lookup-insert j id after w.overrides),
    mark_changed-Other (stored_changed before after d.id) j w.changed other kept.1,
  )

  scalar_target-IsUntouched :
      (e : ConcreteEffect) (d : MechanicDefinition) (j : RulesId) (w w' : Working)
      → Other id j
      → IsUntouched w
      → scalar_target entities e d j w ≡ ok w'
      → IsUntouched w'
  unfolding scalar_target
  scalar_target-IsUntouched e d j w w' other kept h =
      let before = at_or w.overrides j zero_record in
      let (after, applied, recorded) =
        >>=-eq-ok (apply_scalar e d (at_or entities j zero_entity) before)
          (λ after. ok (record_scalar e d j before after w)) h in
      subst IsUntouched (ok-injective recorded)
        (record_scalar-IsUntouched e d j before after w other kept)

  apply_target-IsUntouched :
      (e : ConcreteEffect) (j : RulesId) (w w' : Working)
      → IsUntouched w
      → apply_target entities e j w ≡ ok w'
      → IsUntouched w'
  unfolding apply_target ordered_instance add_instance record_applied
  apply_target-IsUntouched e j w w' kept h =
      let same : (w'.overrides ≡ w.overrides) × (w'.changed ≡ w.changed) = ground arith in
      (rw same.0 kept.0, rw same.1 kept.1)

  remove_target-IsUntouched :
      (e : ConcreteEffect) (j : RulesId) (w w' : Working)
      → IsUntouched w
      → remove_target entities e j w ≡ ok w'
      → IsUntouched w'
  unfolding remove_target record_removed
  remove_target-IsUntouched e j w w' kept h =
      let same : (w'.overrides ≡ w.overrides) × (w'.changed ≡ w.changed) = ground arith in
      (rw same.0 kept.0, rw same.1 kept.1)

  apply_effect-IsUntouched :
      (e : ConcreteEffect) (w w' : Working)
      → Spares id e
      → IsUntouched w
      → apply_effect entities mechanics e w ≡ ok w'
      → IsUntouched w'
  apply_effect-IsUntouched e w w' spares kept h =
      apply_effect-cases entities mechanics e w w' (IsUntouched w') h
        (λ o.
          each_target-keeps IsUntouched (Other id) (scalar_target entities e _)
            (scalar_target-IsUntouched e _) e.entity_ids w w' (spares (ground (arith, o))) kept)
        (λ o.
          each_target-keeps IsUntouched (λ _. Unit {0}) (apply_target entities e)
            (λ j v v' _ now. apply_target-IsUntouched e j v v' now) e.entity_ids w w'
            (All-Unit e.entity_ids) kept)
        (λ o.
          each_target-keeps IsUntouched (λ _. Unit {0}) (remove_target entities e)
            (λ j v v' _ now. remove_target-IsUntouched e j v v' now) e.entity_ids w w'
            (All-Unit e.entity_ids) kept)

-- A transition that succeeds leaves the override record of an entity that no scalar effect of the
-- plan targets as it was in the snapshot, or absent as it was, and does not list the entity as
-- changed.
pub apply_transition-frame :
    (plan : TransitionPlan) (entities : Map Entity) (mechanics : Definitions)
    (statuses : Map InlineStatus) (snapshot : RuntimeSnapshot) (result : RuntimeTransitionResult)
    (id : RulesId)
    → All (Spares id) plan.effects
    → apply_transition plan entities mechanics statuses snapshot ≡ ok result
    → (lookup id result.input_overrides.by_entity ≡ lookup id snapshot.input_overrides.by_entity)
      × All (λ j. (j == id) ≡ false) result.changed_entity_ids
unfolding apply_transition result_of sort_effects
apply_transition-frame plan entities mechanics statuses snapshot result id spares h =
    let records = snapshot.input_overrides.by_entity in
    let (_, checks, run) =
      >>=-eq-ok (check_transition plan entities mechanics statuses snapshot) _ h in
    let (w, applied, built) =
      >>=-eq-ok
        (apply_effects entities mechanics (sort_effects plan.effects) (start_working snapshot))
        (λ w. ok (result_of w)) run in
    let kept =
      apply_effects-keeps entities mechanics (IsUntouched entities mechanics id records) (Spares id)
        (apply_effect-IsUntouched entities mechanics id records) (sort_effects plan.effects)
        (start_working snapshot) w (All-sort _ _ plan.effects spares) (rw clone-records refl, tt)
        applied in
    rw (← ok-injective built) (kept.0, All-sort_texts (Other id) w.changed kept.1)
