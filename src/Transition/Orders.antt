-- ===== src/Transition/Orders.antt =====
-- The applied order that the transition assigns, and the search for an instance.
use Prim.Native.Nat.{ℕ, suc, ◌+◌}
use mathlib.Core.Bool.{true, false, ◌&&◌}
use mathlib.Core.List.{List, [], ◌∷◌}
use mathlib.Core.Logic.{◌⊎◌, inl, inr}
use mathlib.Core.Option.{none, some}
use mathlib.Core.Path.{◌≡◌, refl}
use native.Mathlib.Omega.{arith}
use gezerah.Base.Tests.{◌==◌, string_eq, if◌then◌else◌, Bool-cases}
use gezerah.Base.Int.{ℤ, pos, pos_part, ltb_ℤ, ◌≤ℤ◌, ◌<ℤ◌, int_eq}
use gezerah.Base.Lists.{All, All-map_of, get_elem?}
use gezerah.Errors.{ok}
use gezerah.Types.{RulesId, StatusInstance}
use gezerah.Transition.Instances.{
  matches_instance, find_instance, max_order, max_int64, next_applied_order,
}

-- The instances of the entity have an applied order of at most `bound`.
abbrev pub OrdersAtMost : ℤ → RulesId → StatusInstance → Type 0
OrdersAtMost bound entity_id i = (i.entity_id == entity_id) ≡ true → i.applied_order ≤ℤ bound

max_order-ge : (m : ℤ) (is : List StatusInstance) (id : RulesId) → m ≤ℤ max_order m is id
unfolding max_order
max_order-ge m [] id = omega arith
max_order-ge m (i ∷ is) id = ground (
  arith,
  max_order-ge (if i.entity_id == id && ltb_ℤ m i.applied_order then i.applied_order else m) is id,
)

max_order-bound :
    (m : ℤ) (is : List StatusInstance) (id : RulesId) → All (OrdersAtMost (max_order m is id) id) is
unfolding max_order
max_order-bound m [] id = tt
max_order-bound m (i ∷ is) id =
    let m' = if i.entity_id == id && ltb_ℤ m i.applied_order then i.applied_order else m in
    (λ e. ground (arith, e, max_order-ge m' is id), max_order-bound m' is id)

abbrev pub BelowOrder : ℤ → RulesId → StatusInstance → Type 0
BelowOrder bound entity_id i = (i.entity_id == entity_id) ≡ true → i.applied_order <ℤ bound

-- The maximum is the start or the order of an instance of the entity, so it stays under a bound.
max_order-lt :
    (bound m : ℤ) (is : List StatusInstance) (id : RulesId)
    → m <ℤ bound
    → All (BelowOrder bound id) is
    → max_order m is id <ℤ bound
unfolding max_order
max_order-lt bound m [] id h below = h
max_order-lt bound m (i ∷ is) id h below =
    max_order-lt bound (if i.entity_id == id && ltb_ℤ m i.applied_order then i.applied_order else m)
      is id
      (elim (Bool-cases (i.entity_id == id)) [
        | inl e ↦ ground (arith, e, below.0 e)
        | inr e ↦ ground (arith, e)
      ])
      below.1

-- The order that nextAppliedOrder returns is positive and above that of every instance of the
-- entity.
pub next_applied_order-above :
    (is : List StatusInstance) (id : RulesId) (order : ℤ)
    → next_applied_order is id ≡ ok order
    → (pos 0 <ℤ order) × All (BelowOrder order id) is
unfolding next_applied_order
next_applied_order-above is id order h =
    let facts : order ≡ pos (pos_part (max_order (pos 0) is id) + 1) = ground (arith) in
    (
      rw facts (omega arith),
      All-map_of (λ i most e. rw facts (omega (arith, most e, max_order-ge (pos 0) is id))) is
          (max_order-bound (pos 0) is id),
    )

-- Where every instance of the entity has an order below the largest int64, nextAppliedOrder
-- succeeds, and its result is an int64.
pub next_applied_order-total :
    (is : List StatusInstance) (id : RulesId)
    → All (BelowOrder max_int64 id) is
    → (order : ℤ) × (next_applied_order is id ≡ ok order) × (order ≤ℤ max_int64)
unfolding next_applied_order
next_applied_order-total is id below =
    let top = max_order-lt max_int64 (pos 0) is id (omega arith) below in
    let bottom = max_order-ge (pos 0) is id in
    (
      pos (pos_part (max_order (pos 0) is id) + 1),
      ground (arith, top, bottom),
      ground (arith, top, bottom),
    )

-- Where findStatusInstanceID answers with an index, an instance of the entity with that ID stands
-- there, and where it answers -1, there is none.
pub find_instance_lem :
    (is : List StatusInstance) (entity_id id : RulesId)
    → ((n : ℕ) × (i : StatusInstance) × (find_instance is entity_id id ≡ some n)
        × (get_elem? is n ≡ some i)
        × (matches_instance entity_id id i ≡ true))
      ⊎ ((find_instance is entity_id id ≡ none)
          × All (λ i. matches_instance entity_id id i ≡ false) is)
unfolding find_instance
find_instance_lem [] entity_id id = inr (refl, tt)
find_instance_lem (i ∷ is) entity_id id = elim (Bool-cases (matches_instance entity_id id i)) [
  | inl e ↦ inl (0, i, rw e, refl, e)
  | inr e ↦ elim (find_instance_lem is entity_id id) [
    | inl (n, j, found, at, hit) ↦ inl (suc n, j, rw (e, found), at, hit)
    | inr (missing, others) ↦ inr (rw (e, missing), (e, others))
  ]
]
