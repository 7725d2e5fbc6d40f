-- ===== src/Transition/Apply.antt =====
-- The effects of ApplyRuntimeTransition in internal/rules/runtime_transitions.go, on the working
-- copy of the snapshot.
use Prim.Native.Nat.{ℕ}
use mathlib.Core.Bool.{Bool, true, false}
use mathlib.Core.List.{List, [], ◌∷◌, ◌++◌}
use mathlib.Core.Option.{none, some}
use gezerah.Base.Tests.{◌==◌, string_eq, if◌then◌else◌}
use gezerah.Base.Int.{pos, int_eq}
use gezerah.Base.Lists.{get_elem?, remove_at}
use gezerah.Base.Map.{Map, insert}
use gezerah.Errors.{Result, ok, err, ◌>>=◌, text_of_error}
use gezerah.Types.{
  RulesId, MechanicDefinition, Entity, zero_value, source_other, value_other, InputOverrideRecord,
  StatusInstance, ConcreteEffect, effect_set, effect_adjust_number, effect_apply_status,
  effect_remove_status, effect_other, ScalarApplication, StatusApplication,
}
use gezerah.State.{Definitions, resolve_input}
use gezerah.Effects.{apply_scalar, stored_changed, effect_error}
use gezerah.Statuses.{seen}
use gezerah.Transition.Instances.{zero_entity, at_or, find_instance, next_applied_order}

-- What the loop over the effects writes to.
pub record Working : Type 0 where
  pub overrides : Map InputOverrideRecord
  pub statuses : List StatusInstance
  pub scalar_applications : List ScalarApplication
  pub status_applications : List StatusApplication
  pub changed : List RulesId

-- The zero values that Go reads at a missing key.
abbrev pub zero_record : InputOverrideRecord
zero_record = record { entity_id = ""; revision = pos 0; overrides = [] }

abbrev pub zero_definition : MechanicDefinition
zero_definition = record {
  id = "";
  world_id = "";
  source_kind = source_other "";
  value_kind = value_other "";
  default_value = zero_value;
  expression = none;
  minimum = none;
  maximum = none;
  step = none;
  mutable = false;
  archived = false;
}

abbrev pub zero_instance : StatusInstance
zero_instance = record {
  id = "";
  world_id = "";
  entity_id = "";
  source_effect_id = "";
  applied_order = pos 0;
}

abbrev pub mark_changed : Bool → RulesId → List RulesId → List RulesId
mark_changed changed id ids = if changed then (if seen id ids then ids else id ∷ ids) else ids

-- The write behind an accepted scalar effect on one entity.
unfoldable pub record_scalar :
    ConcreteEffect
    → MechanicDefinition
    → RulesId
    → InputOverrideRecord
    → InputOverrideRecord
    → Working
    → Working
record_scalar effect d entity_id before after w =
    let changed = stored_changed before after d.id in
    record w {
      overrides = insert entity_id after w.overrides;
      scalar_applications =
          w.scalar_applications
          ++ record {
            effect_id = effect.id;
            entity_id = entity_id;
            mechanic_id = d.id;
            before = (resolve_input before d).value;
            after = (resolve_input after d).value;
            changed = changed;
          }
            ∷ [];
      changed = mark_changed changed entity_id w.changed;
    }

module _ (entities : Map Entity) (effect : ConcreteEffect) where
  -- One target of a scalar effect.
  unfoldable pub scalar_target : MechanicDefinition → RulesId → Working → Result Working
  scalar_target d entity_id w =
      let before = at_or w.overrides entity_id zero_record in
      do
        after ← apply_scalar effect d (at_or entities entity_id zero_entity) before
        ok (record_scalar effect d entity_id before after w)

  -- The instance with its applied order, which zero leaves to the transition.
  unfoldable pub ordered_instance :
      List StatusInstance → RulesId → StatusInstance → Result StatusInstance
  ordered_instance statuses entity_id i =
      if i.applied_order == pos 0
      then elim (next_applied_order statuses entity_id) [
        | ok order ↦ ok (record i { applied_order = order })
        | err e ↦ err (effect_error effect (at_or entities entity_id zero_entity) (text_of_error e))
      ]
      else ok i

  -- The append behind an accepted apply-status effect on one entity.
  unfoldable pub record_applied : RulesId → StatusInstance → Working → Working
  record_applied entity_id i w = record w {
    statuses = w.statuses ++ i ∷ [];
    status_applications =
        w.status_applications
        ++ record {
          effect_id = effect.id;
          entity_id = entity_id;
          source_effect_id = effect.id;
          status_instance_id = i.id;
          operation = effect.operation;
          changed = true;
        }
          ∷ [];
  }

  unfoldable pub add_instance : RulesId → Working → StatusInstance → Result Working
  add_instance entity_id w i = elim (find_instance w.statuses entity_id i.id) [
    | none ↦ ok (record_applied entity_id i w)
    | some n ↦ err (
        effect_error effect (at_or entities entity_id zero_entity)
          "status instance ID is already active")
  ]

  -- One target of an apply-status effect.
  unfoldable pub apply_target : RulesId → Working → Result Working
  apply_target entity_id w = do
    i ←
        ordered_instance w.statuses entity_id
          (at_or effect.status_instances entity_id zero_instance)
    add_instance entity_id w i

  -- The removal at an index that was found.
  unfoldable pub record_removed : RulesId → ℕ → StatusInstance → Working → Working
  record_removed entity_id index removed w = record w {
    statuses = remove_at index w.statuses;
    status_applications =
        w.status_applications
        ++ record {
          effect_id = effect.id;
          entity_id = entity_id;
          source_effect_id = removed.source_effect_id;
          status_instance_id = removed.id;
          operation = effect.operation;
          changed = true;
        }
          ∷ [];
  }

  -- One target of a remove-status effect.
  unfoldable pub remove_target : RulesId → Working → Result Working
  remove_target entity_id w =
      elim (find_instance w.statuses entity_id (at_or effect.status_instance_ids entity_id "")) [
        | none ↦ err (
            effect_error effect (at_or entities entity_id zero_entity)
              "status instance is not active on the target entity")
        | some index ↦ ok (
            record_removed entity_id index
              (elim (get_elem? w.statuses index) [ none ↦ zero_instance | some i ↦ i ]) w)
      ]

-- The loop over the targets of an effect.
unfoldable pub each_target :
    (RulesId → Working → Result Working) → List RulesId → Working → Result Working
each_target step [] w = ok w
each_target step (id ∷ ids) w = do w' ← step id w; each_target step ids w'

-- The switch on the operation.
unfoldable pub apply_effect : Map Entity → Definitions → ConcreteEffect → Working → Result Working
apply_effect entities mechanics effect w =
    let d = at_or mechanics effect.mechanic_id zero_definition in
    elim effect.operation [
      | effect_set ↦ each_target (scalar_target entities effect d) effect.entity_ids w
      | effect_adjust_number ↦ each_target (scalar_target entities effect d) effect.entity_ids w
      | effect_apply_status ↦ each_target (apply_target entities effect) effect.entity_ids w
      | effect_remove_status ↦ each_target (remove_target entities effect) effect.entity_ids w
      | effect_other s ↦ err (effect_error effect zero_entity "unsupported effect operation")
    ]

-- The loop over the effects.
unfoldable pub apply_effects :
    Map Entity → Definitions → List ConcreteEffect → Working → Result Working
apply_effects entities mechanics [] w = ok w
apply_effects entities mechanics (e ∷ es) w = do
  w' ← apply_effect entities mechanics e w
  apply_effects entities mechanics es w'
