-- ===== src/Transition/Accepted.antt =====
-- What an accepted plan says of its scalar effects and of the targets of its effects.
use Prim.Native.Nat.{ℕ, suc}
use Prim.Native.String.{String}
use mathlib.Core.Bool.{true, false}
use mathlib.Core.List.{List, [], ◌∷◌}
use mathlib.Core.Logic.{inl, inr}
use mathlib.Core.Option.{some}
use mathlib.Core.Path.{◌≡◌}
use native.Mathlib.Omega.{arith}
use gezerah.Base.Tests.{◌==◌, string_eq, Option-cases}
use gezerah.Base.Int.{ℤ}
use gezerah.Base.Lists.{All, append-eq-nil}
use gezerah.Base.Map.{Map, lookup}
use gezerah.Base.Text.{indexed, dotted}
use gezerah.Types.{
  RulesId, MechanicDefinition, Entity, InlineStatus, ConcreteEffect, TransitionPlan,
}
use gezerah.Definitions.{nest-eq-nil}
use gezerah.State.{Definitions, is_derived}
use gezerah.Effects.{validate_scalar_operand}
use gezerah.Transition.Plan.{
  validate_scalar_effect, validate_operands, validate_target, validate_targets, validate_effects,
  validate_plan, validate_identity, validate_lifecycle,
}

-- The target is an entity of the world.
abbrev pub AcceptedTarget : Map Entity → RulesId → RulesId → Type 0
AcceptedTarget entities world id =
    (e : Entity) × (lookup id entities ≡ some e) × ((e.world_id == world) ≡ true)

module _ (entities : Map Entity) (world : RulesId) where
  validate_target-nil :
      (path : String) (id : RulesId)
      → validate_target entities (some world) path id ≡ []
      → AcceptedTarget entities world id
  unfolding validate_target
  validate_target-nil path id h = elim (Option-cases (lookup id entities)) [
    | inl e ↦ absurd (ground (arith, e))
    | inr (entity, e) ↦ (entity, e, ground (arith, e))
  ]

  pub validate_targets-nil :
      (path : String) (index : ℕ) (met ids : List RulesId)
      → validate_targets entities (some world) path index met ids ≡ []
      → All (AcceptedTarget entities world) ids
  unfolding validate_targets
  validate_targets-nil path index met [] h = tt
  validate_targets-nil path index met (id ∷ ids) h = (
    validate_target-nil (indexed (dotted path "entity_ids") index) id (ground arith),
    validate_targets-nil path (suc index) (id ∷ met) ids
        (append-eq-nil _ (validate_targets entities (some world) path (suc index) (id ∷ met) ids)
          h).1,
  )

-- A scalar effect that the plan's validation accepts.
pub record ScalarAccepted (entities : Map Entity) (mechanics : Definitions)
    (effect : ConcreteEffect) : Type 0 where
  pub definition : MechanicDefinition
  pub found : lookup effect.mechanic_id mechanics ≡ some definition
  pub named : (definition.id == effect.mechanic_id) ≡ true
  pub stored : is_derived definition.source_kind ≡ false
  pub operand : validate_scalar_operand effect definition ≡ []
  pub targets : All (AcceptedTarget entities definition.world_id) effect.entity_ids

-- The checks on the operands and on the targets of an effect found no error.
abbrev pub Accepted : Map Entity → Definitions → Map InlineStatus → ConcreteEffect → Type 0
Accepted entities mechanics statuses effect =
    (path : String) × ((validate_operands effect path mechanics statuses).1 ≡ [])
    × (validate_targets entities (validate_operands effect path mechanics statuses).0 path 0 []
          effect.entity_ids
        ≡ [])

module _ (entities : Map Entity) (mechanics : Definitions) where
  pub scalar-accepted :
      (effect : ConcreteEffect) (path : String)
      → (validate_scalar_effect effect path mechanics).1 ≡ []
      → validate_targets entities
          (validate_scalar_effect effect path mechanics).0
          path
          0
          []
          effect.entity_ids
        ≡ []
      → ScalarAccepted entities mechanics effect
  unfolding validate_scalar_effect
  scalar-accepted effect path h targets =
      elim (Option-cases (lookup effect.mechanic_id mechanics)) [
        | inl e ↦ absurd (ground (arith, e))
        | inr (d, e) ↦ record {
          definition = d;
          found = e;
          named = ground (arith, e);
          stored = ground (arith, e);
          operand = ground (arith, e, nest-eq-nil path (validate_scalar_operand effect d));
          targets =
              validate_targets-nil entities d.world_id path 0 [] effect.entity_ids
                (rw (e, validate_scalar_effect) at targets);
        }
      ]

  module _ (statuses : Map InlineStatus) where
    validate_effects-nil :
        (index : ℕ) (ids : List RulesId) (positions : List ℤ) (applied removed : List RulesId)
        (es : List ConcreteEffect)
        → validate_effects entities mechanics statuses index ids positions applied removed es ≡ []
        → All (Accepted entities mechanics statuses) es
    unfolding validate_effects
    validate_effects-nil index ids positions applied removed [] h = tt
    validate_effects-nil index ids positions applied removed (e ∷ es) h =
        let path = indexed "effects" index in
        let rest =
          append-eq-nil _
            (validate_effects entities mechanics statuses (suc index) (e.id ∷ ids)
              (e.position ∷ positions) (validate_lifecycle e path applied removed).1
              (validate_lifecycle e path applied removed).2 es)
            h in
        let own = append-eq-nil _ (validate_lifecycle e path applied removed).0 rest.0 in
        let targets =
          append-eq-nil _
            (validate_targets entities (validate_operands e path mechanics statuses).0 path 0 []
              e.entity_ids)
            own.0 in
        (
          (path, (append-eq-nil (validate_identity e path ids positions) _ targets.0).1, targets.1),
          validate_effects-nil (suc index) (e.id ∷ ids) (e.position ∷ positions)
              (validate_lifecycle e path applied removed).1
              (validate_lifecycle e path applied removed).2 es rest.1,
        )

    pub validate_plan-nil :
        (plan : TransitionPlan)
        → validate_plan plan entities mechanics statuses ≡ []
        → All (Accepted entities mechanics statuses) plan.effects
    unfolding validate_plan
    validate_plan-nil plan h =
        validate_effects-nil 0 [] [] [] [] plan.effects
          (append-eq-nil (validate_effects entities mechanics statuses 0 [] [] [] [] plan.effects) _
            h).0
