-- ===== src/Effects/Frame.antt =====
-- What a scalar effect writes to the override record of its target, and what it leaves alone.
use mathlib.Core.Bool.{true}
use mathlib.Core.List.{[], ◌∷◌}
use mathlib.Core.Logic.{◌⊎◌, ◌≢◌, inl, inr}
use mathlib.Core.Option.{none, some}
use mathlib.Core.Path.{◌≡◌, refl}
use native.Mathlib.Omega.{arith}
use text.Mathlib.TextEquality.{eq_iff}
use gezerah.Base.Tests.{◌==◌, string_eq, if◌then◌else◌}
use gezerah.Base.Map.{lookup, insert, Distinct, Distinct-insert, lookup-insert}
use gezerah.Errors.{ok}
use gezerah.Types.{
  RulesId, MechanicValue, MechanicDefinition, Entity, InputOverrideRecord, ConcreteEffect,
  effect_set, stored_override, authored_default,
}
use gezerah.Values.{values_equal}
use gezerah.State.{is_redundant, normalize_record, resolve_input}
use gezerah.State.Normalize.{
  clone_record-id, clone-overrides, lookup-drop_redundant, Distinct-drop_redundant,
}
use gezerah.Effects.{store_override, validate_scalar_operand, apply_set, apply_scalar}
use gezerah.Effects.Keeps.{apply_scalar-Written}

-- The override record holds each key once, as a Go map does, and the write keeps that.
pub store_override-Distinct :
    (d : MechanicDefinition) (v : MechanicValue) (r : InputOverrideRecord)
    → Distinct r.overrides
    → Distinct (store_override d v r).overrides
unfolding store_override normalize_record
store_override-Distinct d v r h = rw (clone-overrides (insert d.id v r.overrides)) (
    Distinct-drop_redundant ((d.id, d) ∷ []) (insert d.id v r.overrides)
      (Distinct-insert d.id v r.overrides h))

-- What is stored at a mechanic behind the write of `v` to another.
pub lookup-store_override :
    (d : MechanicDefinition) (v : MechanicValue) (r : InputOverrideRecord) (id : RulesId)
    → Distinct r.overrides
    → lookup id (store_override d v r).overrides ≡ (
        if d.id == id
        then (if is_redundant ((d.id, d) ∷ []) id v then none else some v)
        else lookup id r.overrides)
unfolding store_override normalize_record
lookup-store_override d v r id h = rw (clone-overrides (insert d.id v r.overrides)) (
    unfold is_redundant lookup in
    ground (
      arith,
      lookup-insert d.id id v r.overrides,
      lookup-drop_redundant ((d.id, d) ∷ []) id (insert d.id v r.overrides)
          (Distinct-insert d.id v r.overrides h),
    ))

-- A scalar effect with an accepted operand, where it succeeds, keeps the entity and the revision of
-- the record, its keys distinct and the overrides of every other mechanic.
pub apply_scalar-frame :
    (effect : ConcreteEffect) (d : MechanicDefinition) (target : Entity)
    (r r' : InputOverrideRecord)
    → Distinct r.overrides
    → validate_scalar_operand effect d ≡ []
    → apply_scalar effect d target r ≡ ok r'
    → (r'.entity_id ≡ r.entity_id)
      × (r'.revision ≡ r.revision)
      × Distinct r'.overrides
      × ((id : RulesId) → d.id ≢ id → lookup id r'.overrides ≡ lookup id r.overrides)
apply_scalar-frame effect d target r r' distinct operand h =
    elim (apply_scalar-Written effect d target r operand h) [
      | inl e ↦ rw e (refl, refl, distinct, λ id other. refl)
      | inr (v, fits, e) ↦ rw e (
        unfold store_override normalize_record in refl,
        unfold store_override normalize_record in refl,
        store_override-Distinct d v r distinct,
        λ id other. ground (arith, lookup-store_override d v r id distinct, eq_iff d.id id),
      )
    ]

-- Behind a set effect with the operand `v` the mechanic resolves to `v`; or `v` equals the authored
-- default of an input mechanic, nothing is stored, and the mechanic resolves to the default.
pub resolve_input-apply_scalar_set :
    (effect : ConcreteEffect) (d : MechanicDefinition) (target : Entity) (v : MechanicValue)
    (r r' : InputOverrideRecord)
    → Distinct r.overrides
    → effect.operation ≡ effect_set
    → effect.value ≡ some v
    → apply_scalar effect d target r ≡ ok r'
    → (resolve_input r' d ≡ record { presence = stored_override; value = v })
      ⊎ ((resolve_input r' d ≡ record { presence = authored_default; value = d.default_value })
          × (values_equal v d.default_value ≡ true)
          × (lookup d.id r'.overrides ≡ none))
unfolding apply_scalar apply_set resolve_input
resolve_input-apply_scalar_set effect d target v r r' distinct op value h =
    let written : r' ≡ store_override d v r = ground (arith, op, value, clone_record-id r) in
    rw written (
      unfold is_redundant lookup in
      ground (arith, eq_iff d.id d.id, lookup-store_override d v r d.id distinct))
