-- ===== src/State/Validity.antt =====
-- What it means that the checks on override records and on a snapshot find no error.
use mathlib.Core.Bool.{true, false}
use mathlib.Core.List.{[], ◌∷◌}
use mathlib.Core.Logic.{inl, inr}
use mathlib.Core.Option.{some}
use mathlib.Core.Path.{◌≡◌, refl}
use native.Mathlib.Omega.{arith}
use gezerah.Base.Tests.{◌==◌, string_eq, Option-cases}
use gezerah.Base.Int.{pos, ltb_ℤ}
use gezerah.Base.Lists.{append-eq-nil, append-nil_of}
use gezerah.Base.Map.{Map, lookup, Entries}
use gezerah.Types.{RulesId, MechanicValue, Entity, InputOverrideRecord}
use gezerah.State.{
  Definitions, validate_override, validate_overrides, validate_record, validate_entity_record,
  validate_records,
}

module _ (entity : Entity) (definitions : Definitions) where
  -- The stored override draws no error.
  abbrev pub ValidOverride : RulesId → MechanicValue → Type 0
  ValidOverride id v = validate_override entity definitions id v ≡ []

  pub validate_overrides-nil :
      (m : Map MechanicValue)
      → validate_overrides entity definitions m ≡ []
      → Entries ValidOverride m
  unfolding validate_overrides
  validate_overrides-nil [] h = tt
  validate_overrides-nil ((id, v) ∷ m) h =
      let parts = append-eq-nil (validate_override entity definitions id v) _ h in
      (parts.0, validate_overrides-nil m parts.1)

  nil-validate_overrides :
      (m : Map MechanicValue)
      → Entries ValidOverride m
      → validate_overrides entity definitions m ≡ []
  unfolding validate_overrides
  nil-validate_overrides [] h = refl
  nil-validate_overrides ((id, v) ∷ m) h = append-nil_of h.0 (nil-validate_overrides m h.1)

-- A record that a snapshot may hold at `id`.
pub record ValidRecord (entities : Map Entity) (definitions : Definitions) (id : RulesId)
    (r : InputOverrideRecord) : Type 0 where
  pub entity : Entity
  pub found : lookup id entities ≡ some entity
  pub keyed_by : (r.entity_id == id) ≡ true
  pub own : (r.entity_id == entity.id) ≡ true
  pub revision : ltb_ℤ r.revision (pos 0) ≡ false
  pub overrides : Entries (ValidOverride entity definitions) r.overrides

module _ (entities : Map Entity) (definitions : Definitions) where
  pub validate_entity_record-nil :
      (id : RulesId) (r : InputOverrideRecord)
      → validate_entity_record entities definitions id r ≡ []
      → ValidRecord entities definitions id r
  unfolding validate_entity_record validate_record
  validate_entity_record-nil id r h = elim (Option-cases (lookup id entities)) [
    | inl e ↦ absurd (ground (arith, e))
    | inr (entity, e) ↦ record {
      entity = entity;
      found = e;
      keyed_by = ground (arith, e);
      own = ground (arith, e);
      revision = ground (arith, e);
      overrides = validate_overrides-nil entity definitions r.overrides (ground (arith, e));
    }
  ]

  pub nil-validate_entity_record :
      (id : RulesId) (r : InputOverrideRecord)
      → ValidRecord entities definitions id r
      → validate_entity_record entities definitions id r ≡ []
  unfolding validate_entity_record validate_record
  nil-validate_entity_record id r v = ground (
    arith,
    v.found,
    v.keyed_by,
    v.own,
    v.revision,
    nil-validate_overrides v.entity definitions r.overrides v.overrides,
  )

  pub validate_records-nil :
      (m : Map InputOverrideRecord)
      → validate_records entities definitions m ≡ []
      → Entries (ValidRecord entities definitions) m
  unfolding validate_records
  validate_records-nil [] h = tt
  validate_records-nil ((id, r) ∷ m) h =
      let parts = append-eq-nil (validate_entity_record entities definitions id r) _ h in
      (validate_entity_record-nil id r parts.0, validate_records-nil m parts.1)

  pub nil-validate_records :
      (m : Map InputOverrideRecord)
      → Entries (ValidRecord entities definitions) m
      → validate_records entities definitions m ≡ []
  unfolding validate_records
  nil-validate_records [] h = refl
  nil-validate_records ((id, r) ∷ m) h =
      append-nil_of (nil-validate_entity_record id r h.0) (nil-validate_records m h.1)
