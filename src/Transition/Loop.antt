-- ===== src/Transition/Loop.antt =====
-- Proof rules for the loops over targets and effects, and what each kind of effect leaves alone.
use mathlib.Core.List.{List, [], ◌∷◌}
use mathlib.Core.Logic.{◌⊎◌, inl, inr}
use mathlib.Core.Path.{◌≡◌, refl}
use native.Mathlib.Omega.{arith}
use gezerah.Base.Lists.{All}
use gezerah.Base.Map.{Map}
use gezerah.Errors.{Result, ok, ok-injective, >>=-eq-ok}
use gezerah.Types.{
  RulesId, Entity, ConcreteEffect, EffectOperation, effect_set, effect_adjust_number,
  effect_apply_status, effect_remove_status, effect_other,
}
use gezerah.State.{Definitions}
use gezerah.Transition.Instances.{at_or}
use gezerah.Transition.Apply.{
  Working, zero_definition, scalar_target, apply_target, ordered_instance, add_instance,
  remove_target, record_applied, record_removed, each_target, apply_effect, apply_effects,
}

-- A property of the working copy that every round keeps, the loop keeps.
pub each_target-keeps {κ μ} :
    (P : Working → Type κ) (Q : RulesId → Type μ) (step : RulesId → Working → Result Working)
    → ((id : RulesId) (w w' : Working) → Q id → P w → step id w ≡ ok w' → P w')
    → (ids : List RulesId) (w w' : Working) → All Q ids
    → P w
    → each_target step ids w ≡ ok w'
    → P w'
unfolding each_target
each_target-keeps P Q step keep [] w w' q p h = rw (← ok-injective h) p
each_target-keeps P Q step keep (id ∷ ids) w w' q p h =
    let (next, now, later) = >>=-eq-ok (step id w) (each_target step ids) h in
    each_target-keeps P Q step keep ids next w' q.1 (keep id w next q.0 p now) later

pub apply_effects-keeps {κ μ} :
    (entities : Map Entity) (mechanics : Definitions) (P : Working → Type κ)
    (Q : ConcreteEffect → Type μ)
    → ((e : ConcreteEffect) (w w' : Working)
        → Q e
        → P w
        → apply_effect entities mechanics e w ≡ ok w'
        → P w')
    → (es : List ConcreteEffect) (w w' : Working) → All Q es
    → P w
    → apply_effects entities mechanics es w ≡ ok w'
    → P w'
unfolding apply_effects
apply_effects-keeps entities mechanics P Q keep [] w w' q p h = rw (← ok-injective h) p
apply_effects-keeps entities mechanics P Q keep (e ∷ es) w w' q p h =
    let (next, now, later) =
      >>=-eq-ok (apply_effect entities mechanics e w) (apply_effects entities mechanics es) h in
    apply_effects-keeps entities mechanics P Q keep es next w' q.1 (keep e w next q.0 p now) later

module _ (entities : Map Entity) (effect : ConcreteEffect) (id : RulesId) (w : Working)
    {w' : Working} where
  pub apply_target-overrides :
      apply_target entities effect id w ≡ ok w' → w'.overrides ≡ w.overrides
  unfolding apply_target ordered_instance add_instance record_applied
  apply_target-overrides h = ground arith

  pub remove_target-overrides :
      remove_target entities effect id w ≡ ok w' → w'.overrides ≡ w.overrides
  unfolding remove_target record_removed
  remove_target-overrides h = ground arith

-- The five cases of the switch on the operation.
module _ {κ} (entities : Map Entity) (mechanics : Definitions) (e : ConcreteEffect) (w w' : Working)
    (P : Type κ) (h : apply_effect entities mechanics e w ≡ ok w')
    (scalar : (e.operation ≡ effect_set) ⊎ (e.operation ≡ effect_adjust_number)
      → each_target
          (scalar_target entities e (at_or mechanics e.mechanic_id zero_definition))
          e.entity_ids
          w
        ≡ ok w'
      → P)
    (applied : e.operation ≡ effect_apply_status
      → each_target (apply_target entities e) e.entity_ids w ≡ ok w'
      → P)
    (removed : e.operation ≡ effect_remove_status
      → each_target (remove_target entities e) e.entity_ids w ≡ ok w'
      → P) where
  by_operation : (op : EffectOperation) → e.operation ≡ op → P
  unfolding apply_effect
  by_operation effect_set o = scalar (inl o) (ground (arith, o))
  by_operation effect_adjust_number o = scalar (inr o) (ground (arith, o))
  by_operation effect_apply_status o = applied o (ground (arith, o))
  by_operation effect_remove_status o = removed o (ground (arith, o))
  by_operation (effect_other s) o = absurd (ground (arith, o))

  pub apply_effect-cases : P
  apply_effect-cases = by_operation e.operation refl
