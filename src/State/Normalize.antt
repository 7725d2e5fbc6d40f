-- ===== src/State/Normalize.antt =====
-- What normalization does to the overrides of a record.
use mathlib.Core.Bool.{true, false}
use mathlib.Core.List.{[], ◌∷◌, map}
use mathlib.Core.Logic.{◌⊎◌, inl, inr}
use mathlib.Core.Option.{Option, none, some}
use mathlib.Core.Path.{◌≡◌, refl, ap}
use native.Mathlib.Omega.{arith}
use text.Mathlib.TextEquality.{eq_iff}
use gezerah.Base.Tests.{string_eq, if◌then◌else◌, Bool-cases}
use gezerah.Base.Map.{Map, lookup, Entries, Distinct}
use gezerah.Types.{
  RulesId, MechanicValue, MechanicDefinition, InputOverrideRecord, stored_override,
  authored_default,
}
use gezerah.Values.{clone_value, values_equal}
use gezerah.State.{
  Definitions, is_derived, clone_record, is_redundant, drop_redundant, normalize_record,
  resolve_input,
}

pub clone-overrides :
    (m : Map MechanicValue)
    → map {B = RulesId × MechanicValue} (λ (id, v). (id, clone_value v)) m ≡ m
clone-overrides [] = refl
clone-overrides (x ∷ m) = ap (λ r. x ∷ r) (clone-overrides m)

pub clone_record-id : (r : InputOverrideRecord) → clone_record r ≡ r
clone_record-id r = λ i. record r { overrides = clone-overrides r.overrides i }

module _ (definitions : Definitions) where
  -- What survives at a key.
  abbrev pub kept : RulesId → Option MechanicValue → Option MechanicValue
  kept id none = none
  kept id (some v) = if is_redundant definitions id v then none else some v

  pub lookup-drop_redundant :
      (id : RulesId) (m : Map MechanicValue)
      → Distinct m
      → lookup id (drop_redundant definitions m) ≡ kept id (lookup id m)
  unfolding lookup drop_redundant
  lookup-drop_redundant id [] h = refl
  lookup-drop_redundant id ((j, v) ∷ m) h =
      ground (arith, eq_iff j id, h.0, lookup-drop_redundant id m h.1)

  pub Distinct-drop_redundant :
      (m : Map MechanicValue) → Distinct m → Distinct (drop_redundant definitions m)
  unfolding drop_redundant
  Distinct-drop_redundant [] h = tt
  Distinct-drop_redundant ((j, v) ∷ m) h = elim (Bool-cases (is_redundant definitions j v)) [
    | inl e ↦ rw e (Distinct-drop_redundant m h.1)
    | inr e ↦
        rw e (ground (arith, h.0, lookup-drop_redundant j m h.1), Distinct-drop_redundant m h.1)
  ]

  pub Entries-drop_redundant {κ} :
      (P : RulesId → MechanicValue → Type κ) (m : Map MechanicValue)
      → Entries (λ id v. is_redundant definitions id v ≡ false → P id v) m
      → Entries P (drop_redundant definitions m)
  unfolding drop_redundant
  Entries-drop_redundant P [] h = tt
  Entries-drop_redundant P ((j, v) ∷ m) h = elim (Bool-cases (is_redundant definitions j v)) [
    | inl e ↦ rw e (Entries-drop_redundant P m h.1)
    | inr e ↦ rw e (h.0 e, Entries-drop_redundant P m h.1)
  ]

  -- In a record with distinct keys, normalization keeps what a mechanic of the definitions resolves
  -- to, value and presence, or it drops an override that equals the authored default of an input
  -- mechanic, which then resolves to that default.
  pub resolve_input-normalize_record :
      (r : InputOverrideRecord) (d : MechanicDefinition)
      → Distinct r.overrides
      → lookup d.id definitions ≡ some d
      → (resolve_input (normalize_record r definitions) d ≡ resolve_input r d)
        ⊎ ((resolve_input (normalize_record r definitions) d
              ≡ record { presence = authored_default; value = d.default_value })
            × ((resolve_input r d).presence ≡ stored_override)
            × (is_derived d.source_kind ≡ false)
            × (values_equal (resolve_input r d).value d.default_value ≡ true))
  unfolding resolve_input normalize_record is_redundant
  resolve_input-normalize_record r d distinct found =
      rw (clone-overrides r.overrides)
        (ground (arith, found, lookup-drop_redundant d.id r.overrides distinct))
