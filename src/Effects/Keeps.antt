-- ===== src/Effects/Keeps.antt =====
-- A scalar effect keeps the override record of its target valid, and leaves the rest of it alone.
use mathlib.Core.Bool.{true, false}
use mathlib.Core.List.{[], ◌∷◌}
use mathlib.Core.Logic.{◌⊎◌, inl, inr}
use mathlib.Core.Option.{some}
use mathlib.Core.Path.{◌≡◌, refl}
use native.Mathlib.Omega.{arith}
use text.Mathlib.TextEquality.{eq_iff}
use gezerah.Base.Tests.{◌==◌, string_eq, Option-cases}
use gezerah.Base.Lists.{append-eq-nil}
use gezerah.Base.Map.{lookup, insert, Entries, Entries-insert, Entries-map_of}
use gezerah.Errors.{ok, err-ne-ok}
use gezerah.Types.{
  MechanicValue, MechanicDefinition, Entity, InputOverrideRecord, EffectOperation, effect_set,
  effect_adjust_number, ConcreteEffect,
}
use gezerah.Values.{number_value, validate_value}
use gezerah.Definitions.{nest, nest-eq-nil}
use gezerah.State.{
  Definitions, is_derived, is_redundant, normalize_record, validate_override, clone_record,
  resolve_input,
}
use gezerah.State.Validity.{ValidOverride}
use gezerah.State.Normalize.{clone_record-id, clone-overrides, Entries-drop_redundant}
use gezerah.Decimal.Parse.{Parsed-cases}
use gezerah.Decimal.Ops.{add}
use gezerah.Effects.{
  current_number, store_override, store_adjusted, validate_set_operand, validate_operation_operand,
  validate_scalar_operand, apply_set, apply_adjust, apply_scalar,
}

module _ (entity : Entity) (definitions : Definitions) where
  module _ (d : MechanicDefinition) (found : lookup d.id definitions ≡ some d)
      (home : (d.world_id == entity.world_id) ≡ true)
      (stored : is_derived d.source_kind ≡ false) where
    ValidOverride-new :
        (v : MechanicValue)
        → validate_value d v ≡ []
        → is_redundant ((d.id, d) ∷ []) d.id v ≡ false
        → ValidOverride entity definitions d.id v
    unfolding validate_override is_redundant lookup nest
    ValidOverride-new v valid fresh = ground (arith, found, home, stored, eq_iff d.id d.id)

    pub store_override-valid :
        (v : MechanicValue) (r : InputOverrideRecord)
        → validate_value d v ≡ []
        → Entries (ValidOverride entity definitions) r.overrides
        → Entries (ValidOverride entity definitions) (store_override d v r).overrides
    unfolding store_override normalize_record
    store_override-valid v r valid h = rw (clone-overrides (insert d.id v r.overrides)) (
        Entries-drop_redundant ((d.id, d) ∷ []) (ValidOverride entity definitions)
          (insert d.id v r.overrides)
          (Entries-insert
            (λ id w.
              is_redundant ((d.id, d) ∷ []) id w ≡ false → ValidOverride entity definitions id w)
            d.id v r.overrides (ValidOverride-new v valid)
            (Entries-map_of (λ id w p _. p) r.overrides h)))

-- What a successful application of a scalar effect has written.
abbrev pub Written : MechanicDefinition → InputOverrideRecord → InputOverrideRecord → Type 0
Written d r r' =
    (r' ≡ r) ⊎ ((v : MechanicValue) × (validate_value d v ≡ []) × (r' ≡ store_override d v r))

module _ (effect : ConcreteEffect) (d : MechanicDefinition) (target : Entity)
    (r : InputOverrideRecord) {r' : InputOverrideRecord} where
  set-Written :
      validate_set_operand effect d ≡ [] → apply_set effect d target r ≡ ok r' → Written d r r'
  unfolding apply_set validate_set_operand
  set-Written valid h = elim (Option-cases effect.value) [
    | inl e ↦ absurd (err-ne-ok (rw e at h))
    | inr (v, e) ↦ inr (
      v,
      ground (arith, e, nest-eq-nil "value" (validate_value d v)),
      ground (arith, e, clone_record-id r),
    )
  ]

  adjusted-Written :
      (current value : MechanicValue)
      → store_adjusted effect d r current value ≡ ok r'
      → Written d r r'
  unfolding store_adjusted
  adjusted-Written current value h =
      let parts : (r' ≡ r) ⊎ (validate_value d value ≡ []) × (r' ≡ store_override d value r) =
        ground (arith, clone_record-id r) in
      elim parts [ inl e ↦ inl e | inr (valid, e) ↦ inr (value, valid, e) ]

  adjust-Written : apply_adjust effect d target r ≡ ok r' → Written d r r'
  unfolding apply_adjust
  adjust-Written h =
      let current = (resolve_input (clone_record r) d).value in
      elim (Option-cases (current_number current)) [
        | inl e ↦ absurd (ground (arith, e))
        | inr (n, e) ↦ elim (Option-cases effect.adjustment_amount) [
          | inl e₂ ↦ absurd (ground (arith, e, e₂))
          | inr (amount, e₂) ↦ elim (Parsed-cases (add n amount)) [
            | inl (sum, e₃) ↦
                adjusted-Written current (number_value sum) (ground (arith, e, e₂, e₃))
            | inr (error, e₃) ↦ absurd (ground (arith, e, e₂, e₃))
          ]
        ]
      ]

  scalar-Written :
      (op : EffectOperation)
      → effect.operation ≡ op
      → validate_operation_operand effect d ≡ []
      → apply_scalar effect d target r ≡ ok r'
      → Written d r r'
  unfolding apply_scalar validate_operation_operand
  scalar-Written effect_set e valid h = set-Written (ground (arith, e)) (ground (arith, e))
  scalar-Written effect_adjust_number e valid h = adjust-Written (ground (arith, e))
  scalar-Written _ e valid h = absurd (ground (arith, e))

  pub apply_scalar-Written :
      validate_scalar_operand effect d ≡ []
      → apply_scalar effect d target r ≡ ok r'
      → Written d r r'
  unfolding validate_scalar_operand
  apply_scalar-Written valid =
      scalar-Written effect.operation refl
        (append-eq-nil _ (validate_operation_operand effect d) valid).1

pub Written-identity :
    (d : MechanicDefinition) (r r' : InputOverrideRecord)
    → Written d r r'
    → (r'.entity_id ≡ r.entity_id) × (r'.revision ≡ r.revision)
unfolding store_override normalize_record
Written-identity d r r' (inl e) = rw e (refl, refl)
Written-identity d r r' (inr (v, fits, e)) = rw e (refl, refl)

-- A record whose overrides are valid for its entity still has valid overrides after a scalar effect
-- whose operand was accepted, on a mechanic of the definitions and of the entity's world that is
-- not derived.
pub apply_scalar-valid :
    (entity target : Entity) (definitions : Definitions) (effect : ConcreteEffect)
    (d : MechanicDefinition) (r r' : InputOverrideRecord)
    → lookup d.id definitions ≡ some d
    → (d.world_id == entity.world_id) ≡ true
    → is_derived d.source_kind ≡ false
    → validate_scalar_operand effect d ≡ []
    → apply_scalar effect d target r ≡ ok r'
    → Entries (ValidOverride entity definitions) r.overrides
    → Entries (ValidOverride entity definitions) r'.overrides
apply_scalar-valid entity target definitions effect d r r' found home stored operand h valid =
    elim (apply_scalar-Written effect d target r operand h) [
      | inl e ↦ rw e valid
      | inr (v, fits, e) ↦
          rw e (store_override-valid entity definitions d found home stored v r fits valid)
    ]
