-- ===== src/Transition/Validity.antt =====
-- A transition keeps the input overrides of a snapshot valid.
use mathlib.Core.Bool.{true}
use mathlib.Core.List.{[]}
use mathlib.Core.Logic.{inl, inr}
use mathlib.Core.Option.{some, some-injective}
use mathlib.Core.Path.{◌≡◌, sym, ◌∙◌, ap, subst}
use native.Mathlib.Omega.{arith}
use text.Mathlib.TextEquality.{eq_iff}
use gezerah.Base.Tests.{◌==◌, string_eq, Option-cases}
use gezerah.Base.Lists.{All, All-both, All-Unit}
use gezerah.Base.Sort.{All-sort}
use gezerah.Base.Map.{
  Map, lookup, insert, has, Entries, Entries-insert, Entries-lookup, lookup-insert,
}
use gezerah.Errors.{ok, ok-injective, >>=-eq-ok}
use gezerah.Types.{
  RulesId, Entity, InlineStatus, InputOverrideRecord, ConcreteEffect, TransitionPlan,
  RuntimeSnapshot, RuntimeTransitionResult,
}
use gezerah.State.{Definitions, validate_snapshot}
use gezerah.State.Validity.{ValidRecord, validate_records-nil, nil-validate_records}
use gezerah.Effects.{apply_scalar}
use gezerah.Effects.Keeps.{apply_scalar-valid, apply_scalar-Written, Written-identity}
use gezerah.Transition.Plan.{validate_operands}
use gezerah.Transition.Instances.{at_or, zero_entity}
use gezerah.Transition.Apply.{
  Working, zero_definition, zero_record, scalar_target, apply_target, remove_target, each_target,
  record_scalar, apply_effect, apply_effects,
}
use gezerah.Transition.Accepted.{
  AcceptedTarget, ScalarAccepted, Accepted, scalar-accepted, validate_plan-nil,
}
use gezerah.Transition.Checks.{check_transition-Checked, missing_records-nil, clone-records}
use gezerah.Transition.Loop.{
  each_target-keeps, apply_effects-keeps, apply_effect-cases, apply_target-overrides,
  remove_target-overrides,
}
use gezerah.Transition.Run.{
  apply_transition, check_transition, sort_effects, start_working, result_of,
}

module _ (entities : Map Entity) (mechanics : Definitions) (start : Map InputOverrideRecord) where
  -- The working copy holds a valid record for each entity that the snapshot has one for.
  pub record IsSound (w : Working) : Type 0 where
    pub valid : Entries (ValidRecord entities mechanics) w.overrides
    pub present : (id : RulesId) → has id start ≡ true → has id w.overrides ≡ true

  abbrev Listed : RulesId → Type 0
  Listed id = has id start ≡ true

  same-IsSound : (w w' : Working) → IsSound w → w'.overrides ≡ w.overrides → IsSound w'
  same-IsSound w w' sound e = record {
    valid = rw e sound.valid;
    present = λ id listed. rw e (sound.present id listed);
  }

  module _ (e : ConcreteEffect) (a : ScalarAccepted entities mechanics e) where
    found_at_id : lookup a.definition.id mechanics ≡ some a.definition
    found_at_id =
        subst (λ id. lookup id mechanics ≡ some a.definition)
          (sym ((eq_iff a.definition.id e.mechanic_id).0 a.named)) a.found

    -- The record that the effect leaves for an accepted target.
    written-ValidRecord :
        (id : RulesId) (target : Entity) (r r' : InputOverrideRecord)
        → AcceptedTarget entities a.definition.world_id id
        → ValidRecord entities mechanics id r
        → apply_scalar e a.definition target r ≡ ok r'
        → ValidRecord entities mechanics id r'
    written-ValidRecord id target r r' (entity, found, home) v h =
        let same : entity ≡ v.entity = some-injective entity v.entity (sym found ∙ v.found) in
        let at_home : (a.definition.world_id == v.entity.world_id) ≡ true =
          (eq_iff a.definition.world_id v.entity.world_id).1 (
            sym (
              sym (ap (λ (x : Entity). x.world_id) same)
              ∙ (eq_iff entity.world_id a.definition.world_id).0 home)) in
        let identity =
          Written-identity a.definition r r'
            (apply_scalar-Written e a.definition target r a.operand h) in
        record {
          entity = v.entity;
          found = v.found;
          keyed_by = rw identity.0 v.keyed_by;
          own = rw identity.0 v.own;
          revision = rw identity.1 v.revision;
          overrides =
              apply_scalar-valid v.entity target mechanics e a.definition r r' found_at_id at_home
                a.stored a.operand h v.overrides;
        }

    insert-IsSound :
        (id : RulesId) (r' : InputOverrideRecord) (w w' : Working)
        → ValidRecord entities mechanics id r'
        → IsSound w
        → w'.overrides ≡ insert id r' w.overrides
        → IsSound w'
    insert-IsSound id r' w w' v sound e = record {
      valid =
          rw e (Entries-insert (ValidRecord entities mechanics) id r' w.overrides v sound.valid);
      present = λ j listed.
          rw e (ground (arith, lookup-insert id j r' w.overrides, sound.present j listed));
    }

    -- One accepted target.
    scalar_target-IsSound :
        (id : RulesId) (w w' : Working)
        → AcceptedTarget entities a.definition.world_id id × Listed id
        → IsSound w
        → scalar_target entities e a.definition id w ≡ ok w'
        → IsSound w'
    unfolding scalar_target record_scalar
    scalar_target-IsSound id w w' target sound h = elim (Option-cases (lookup id w.overrides)) [
      | inl missing ↦ absurd (ground (arith, missing, sound.present id target.1))
      | inr (r, at) ↦
          let (after, applied, recorded) =
            >>=-eq-ok
              (apply_scalar e a.definition (at_or entities id zero_entity)
                (at_or w.overrides id zero_record))
              (λ after.
                ok (record_scalar e a.definition id (at_or w.overrides id zero_record) after w))
              h in
          insert-IsSound id after w w'
            (written-ValidRecord id (at_or entities id zero_entity) r after target.0
              (Entries-lookup (ValidRecord entities mechanics) id w.overrides sound.valid at)
              (rw at at applied))
            sound (sym (ap (λ (x : Working). x.overrides) (ok-injective recorded)))
    ]

    -- All targets of an accepted scalar effect.
    scalar-IsSound :
        (w w' : Working)
        → All Listed e.entity_ids
        → IsSound w
        → each_target
            (scalar_target entities e (at_or mechanics e.mechanic_id zero_definition))
            e.entity_ids
            w
          ≡ ok w'
        → IsSound w'
    scalar-IsSound w w' listed sound h =
        each_target-keeps IsSound
          (λ id. AcceptedTarget entities a.definition.world_id id × Listed id)
          (scalar_target entities e a.definition) scalar_target-IsSound e.entity_ids w w'
          (All-both (AcceptedTarget entities a.definition.world_id) Listed e.entity_ids a.targets
            listed)
          sound (rw a.found at h)

  module _ (statuses : Map InlineStatus) where
    apply_effect-IsSound :
        (e : ConcreteEffect) (w w' : Working)
        → Accepted entities mechanics statuses e × All Listed e.entity_ids
        → IsSound w
        → apply_effect entities mechanics e w ≡ ok w'
        → IsSound w'
    unfolding validate_operands
    apply_effect-IsSound e w w' ((path, operands, targets), listed) sound h =
        apply_effect-cases entities mechanics e w w' (IsSound w') h
          (λ o.
            scalar-IsSound e
              (scalar-accepted entities mechanics e path (ground (arith, o)) (ground (arith, o))) w
              w' listed sound)
          (λ o.
            each_target-keeps IsSound (λ _. Unit {0}) (apply_target entities e)
              (λ id v v' _ kept now.
                same-IsSound v v' kept (apply_target-overrides entities e id v now))
              e.entity_ids w w' (All-Unit e.entity_ids) sound)
          (λ o.
            each_target-keeps IsSound (λ _. Unit {0}) (remove_target entities e)
              (λ id v v' _ kept now.
                same-IsSound v v' kept (remove_target-overrides entities e id v now))
              e.entity_ids w w' (All-Unit e.entity_ids) sound)

-- A transition that succeeds returns override records that pass the validation of a snapshot.
pub apply_transition-valid :
    (plan : TransitionPlan) (entities : Map Entity) (mechanics : Definitions)
    (statuses : Map InlineStatus) (snapshot : RuntimeSnapshot) (result : RuntimeTransitionResult)
    → apply_transition plan entities mechanics statuses snapshot ≡ ok result
    → validate_snapshot result.input_overrides entities mechanics ≡ []
unfolding apply_transition validate_snapshot result_of sort_effects
apply_transition-valid plan entities mechanics statuses snapshot result h =
    let records = snapshot.input_overrides.by_entity in
    let (_, checks, run) =
      >>=-eq-ok (check_transition plan entities mechanics statuses snapshot) _ h in
    let checked = check_transition-Checked plan entities mechanics statuses snapshot checks in
    let (w, applied, built) =
      >>=-eq-ok
        (apply_effects entities mechanics (sort_effects plan.effects) (start_working snapshot))
        (λ w. ok (result_of w)) run in
    let sound =
      apply_effects-keeps entities mechanics (IsSound entities mechanics records)
        (λ e.
          Accepted entities mechanics statuses e × All (λ id. has id records ≡ true) e.entity_ids)
        (apply_effect-IsSound entities mechanics records statuses) (sort_effects plan.effects)
        (start_working snapshot) w
        (All-sort _ _ plan.effects (
          All-both _ _ plan.effects
            (validate_plan-nil entities mechanics statuses plan checked.planned)
            (missing_records-nil records plan.effects checked.targets)))
        (record {
          valid =
              rw clone-records (validate_records-nil entities mechanics records checked.overrides);
          present = λ id listed. rw clone-records listed;
        })
        applied in
    rw (← ok-injective built) (nil-validate_records entities mechanics w.overrides sound.valid)
