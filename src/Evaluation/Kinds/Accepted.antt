-- ===== src/Evaluation/Kinds/Accepted.antt =====
-- The modifiers of accepted statuses, grouped by resolvedModifiersByMechanic, fit their mechanics.
use Prim.Native.Nat.{ℕ, suc}
use Prim.Native.String.{String}
use mathlib.Core.Bool.{not}
use mathlib.Core.List.{List, [], ◌∷◌, ◌++◌, map}
use mathlib.Core.Logic.{inl, inr}
use mathlib.Core.Option.{some, some-injective}
use mathlib.Core.Path.{◌≡◌, sym, subst, ◌∙◌}
use native.Mathlib.Omega.{arith}
use gezerah.Base.Int.{ℤ, pos, ltb_ℤ, int_eq}
use gezerah.Base.Tests.{◌==◌, string_eq, Option-cases}
use gezerah.Base.Lists.{All, All-append, All-map_of, append-eq-nil}
use gezerah.Base.Map.{Map, lookup, keys, insert, Entries, Entries-lookup, Entries-insert}
use gezerah.Base.Sort.{sort, All-sort, sort_texts, All-sort_texts_of}
use gezerah.Base.Text.{indexed, keyed}
use gezerah.Errors.{fault_if}
use gezerah.Types.{RulesId, valid, MechanicDefinition, StatusModifier, InlineStatus, StatusInstance}
use gezerah.Definitions.{nest, nest-eq-nil}
use gezerah.State.{Definitions}
use gezerah.Statuses.{
  seen, validate_modifier, validate_modifier_target, validate_modifiers, validate_inline_status,
  validate_status_ids, validate_inline_statuses,
}
use gezerah.Transition.Instances.{at_or}
use gezerah.Evaluation.Complete.{All-keys}
use gezerah.Evaluation.Modifiers.{
  ResolvedModifier, Resolved, applies_before, zero_status, add_modifiers, add_instances,
  resolved_modifiers,
}

module _ (definitions : Definitions) where
  -- The modifier is accepted for the mechanic of the ID.
  abbrev pub Fits : RulesId → StatusModifier → Type 0
  Fits id m = (d : MechanicDefinition) → lookup id definitions ≡ some d → validate_modifier m d ≡ []

  -- A status whose modifiers are accepted for their mechanics.
  abbrev AcceptedStatus : InlineStatus → Type 0
  AcceptedStatus s = All (λ m. Fits m.mechanic_id m) s.modifiers

  validate_modifier_target-Fits :
      (world_id : RulesId) (path : String) (m : StatusModifier)
      → validate_modifier_target definitions world_id path m ≡ []
      → Fits m.mechanic_id m
  unfolding validate_modifier_target
  validate_modifier_target-Fits world_id path m clean d found =
      let (_, fits) =
        append-eq-nil
          (fault_if (not (d.id == m.mechanic_id)) _ _ _
            ++ fault_if (not (d.world_id == world_id)) _ _ _
            ++ fault_if d.archived _ _ _)
          _ (rw (found, validate_modifier_target) at clean) in
      nest-eq-nil path (validate_modifier m d) fits

  validate_modifiers-Fits :
      (world_id : RulesId) (index : ℕ) (ids : List RulesId) (positions : List ℤ)
      (ms : List StatusModifier)
      → validate_modifiers definitions world_id index ids positions ms ≡ []
      → All (λ m. Fits m.mechanic_id m) ms
  unfolding validate_modifiers
  validate_modifiers-Fits world_id index ids positions [] clean = tt
  validate_modifiers-Fits world_id index ids positions (m ∷ ms) clean =
      let path = indexed "modifiers" index in
      let (front, rest) =
        append-eq-nil
          (fault_if (not (valid m.id)) _ _ _
            ++ fault_if (seen m.id ids) _ _ _
            ++ fault_if (ltb_ℤ m.position (pos 0)) _ _ _
            ++ fault_if (seen m.position positions) _ _ _
            ++ validate_modifier_target definitions world_id path m)
          (validate_modifiers definitions world_id (suc index) (m.id ∷ ids) (m.position ∷ positions)
            ms)
          clean in
      let (_, target) =
        append-eq-nil
          (fault_if (not (valid m.id)) _ _ _
            ++ fault_if (seen m.id ids) _ _ _
            ++ fault_if (ltb_ℤ m.position (pos 0)) _ _ _
            ++ fault_if (seen m.position positions) _ _ _)
          (validate_modifier_target definitions world_id path m) front in
      (
        validate_modifier_target-Fits world_id path m target,
        validate_modifiers-Fits world_id (suc index) (m.id ∷ ids) (m.position ∷ positions) ms rest,
      )

  validate_inline_status-Accepted :
      (s : InlineStatus) → validate_inline_status s definitions ≡ [] → AcceptedStatus s
  unfolding validate_inline_status
  validate_inline_status-Accepted s clean =
      let (front, _) =
        append-eq-nil
          (fault_if (not (valid s.id)) _ _ _
            ++ fault_if (not (valid s.world_id)) _ _ _
            ++ validate_modifiers definitions s.world_id 0 [] [] s.modifiers)
          _ clean in
      let (_, modifiers) =
        append-eq-nil (fault_if (not (valid s.id)) _ _ _ ++ fault_if (not (valid s.world_id)) _ _ _)
          (validate_modifiers definitions s.world_id 0 [] [] s.modifiers) front in
      validate_modifiers-Fits s.world_id 0 [] [] s.modifiers modifiers

  validate_status_ids-Accepted :
      (statuses : Map InlineStatus) (ids : List RulesId)
      → validate_status_ids statuses definitions ids ≡ []
      → All (λ id. (s : InlineStatus) → lookup id statuses ≡ some s → AcceptedStatus s) ids
  unfolding validate_status_ids
  validate_status_ids-Accepted statuses [] clean = tt
  validate_status_ids-Accepted statuses (id ∷ ids) clean =
      elim (Option-cases (lookup id statuses)) [
        | inl missing ↦ (
          λ s found. absurd (ground (arith, missing, found)),
          validate_status_ids-Accepted statuses ids (rw (missing, validate_status_ids) at clean),
        )
        | inr (s, there) ↦
            let (own, rest) =
              append-eq-nil
                (fault_if (not (s.id == id)) _ _ _
                  ++ nest (keyed "statuses" id) (validate_inline_status s definitions))
                (validate_status_ids statuses definitions ids)
                (rw (there, validate_status_ids) at clean) in
            let (_, accepted) = append-eq-nil (fault_if (not (s.id == id)) _ _ _) _ own in
            (
              λ t found.
                  subst AcceptedStatus (some-injective s t (sym there ∙ found))
                    (validate_inline_status-Accepted s (nest-eq-nil _ _ accepted)),
              validate_status_ids-Accepted statuses ids rest,
            )
      ]

  -- Groups whose modifiers fit the mechanic of their key.
  abbrev Fitting : Resolved → Type 0
  Fitting = Entries (λ id rs. All (λ r. Fits id r.modifier) rs)

  at_or-Fitting :
      (id : RulesId) (groups : Resolved)
      → Fitting groups
      → All (λ r. Fits id r.modifier) (at_or groups id [])
  at_or-Fitting id groups fitting = elim (Option-cases (lookup id groups)) [
    | inl missing ↦ rw missing tt
    | inr (rs, there) ↦
        rw there
          (Entries-lookup (λ id rs. All (λ r. Fits id r.modifier) rs) id groups fitting there)
  ]

  add_modifiers-Fitting :
      (i : StatusInstance) (s : InlineStatus) (ms : List StatusModifier) (groups : Resolved)
      → All (λ m. Fits m.mechanic_id m) ms
      → Fitting groups
      → Fitting (add_modifiers i s ms groups)
  unfolding add_modifiers
  add_modifiers-Fitting i s [] groups accepted fitting = fitting
  add_modifiers-Fitting i s (m ∷ ms) groups accepted fitting =
      add_modifiers-Fitting i s ms
        (insert m.mechanic_id
          (at_or groups m.mechanic_id []
            ++ record { instance_of = i; status = s; modifier = m } ∷ [])
          groups)
        accepted.1
        (Entries-insert (λ id rs. All (λ r. Fits id r.modifier) rs) m.mechanic_id
          (at_or groups m.mechanic_id []
            ++ record { instance_of = i; status = s; modifier = m } ∷ [])
          groups
          (All-append (λ r. Fits m.mechanic_id r.modifier) (at_or groups m.mechanic_id []) _
            (at_or-Fitting m.mechanic_id groups fitting) (accepted.0, tt))
          fitting)

  module _ (statuses : Map InlineStatus)
      (accepted : (id : RulesId) (s : InlineStatus)
        → lookup id statuses ≡ some s
        → AcceptedStatus s) where
    source-Accepted : (id : RulesId) → AcceptedStatus (at_or statuses id zero_status)
    source-Accepted id = elim (Option-cases (lookup id statuses)) [
      | inl missing ↦ rw missing tt
      | inr (s, there) ↦ rw there (accepted id s there)
    ]

    add_instances-Fitting :
        (instances : List StatusInstance) (groups : Resolved)
        → Fitting groups
        → Fitting (add_instances statuses instances groups)
    unfolding add_instances
    add_instances-Fitting [] groups fitting = fitting
    add_instances-Fitting (i ∷ is) groups fitting =
        let s = at_or statuses i.source_effect_id zero_status in
        add_instances-Fitting is (add_modifiers i s s.modifiers groups) (
          add_modifiers-Fitting i s s.modifiers groups (source-Accepted i.source_effect_id) fitting)

  sorted-Fitting :
      (groups : Resolved)
      → Fitting groups
      → Fitting (
          map {B = RulesId × List ResolvedModifier}
            (λ (id, ms). (id, sort applies_before ms))
            groups)
  sorted-Fitting [] fitting = tt
  sorted-Fitting ((id, rs) ∷ groups) fitting = (
    All-sort applies_before (λ r. Fits id r.modifier) rs fitting.0,
    sorted-Fitting groups fitting.1,
  )

  -- Where ValidateInlineStatuses finds no error, the modifiers in the group of a mechanic are accepted
  -- for it.
  pub resolved_modifiers-Fits :
      (statuses : Map InlineStatus) (instances : List StatusInstance) (id : RulesId)
      (d : MechanicDefinition)
      → validate_inline_statuses statuses definitions ≡ []
      → lookup id definitions ≡ some d
      → All
          (λ r. validate_modifier r.modifier d ≡ [])
          (at_or (resolved_modifiers statuses instances) id [])
  unfolding validate_inline_statuses resolved_modifiers
  resolved_modifiers-Fits statuses instances id d clean found =
      let accepted = validate_status_ids-Accepted statuses (sort_texts (keys statuses)) clean in
      All-map_of (λ r fits. fits d found) (at_or (resolved_modifiers statuses instances) id [])
        (at_or-Fitting id (resolved_modifiers statuses instances) (
          sorted-Fitting (add_instances statuses instances []) (
            add_instances-Fitting statuses
              (λ id s there.
                All-keys (λ id. (s : InlineStatus) → lookup id statuses ≡ some s → AcceptedStatus s)
                  statuses id s (All-sort_texts_of _ (keys statuses) accepted) there s there)
              instances [] tt)))
