-- ===== src/Transition/Lifecycle.antt =====
-- What the status effects of a transition do to the active instances.
use Prim.Native.Nat.{ℕ}
use mathlib.Core.Bool.{true, false}
use mathlib.Core.List.{List, [], ◌∷◌, ◌++◌}
use mathlib.Core.Logic.{inl, inr}
use mathlib.Core.Option.{none, some}
use mathlib.Core.Path.{◌≡◌, refl, sym, subst, ap, ◌∙◌}
use native.Mathlib.Omega.{arith}
use text.Mathlib.TextEquality.{eq_iff}
use gezerah.Base.Tests.{◌==◌, string_eq, Bool-cases}
use gezerah.Base.Int.{ℤ, pos, ◌<ℤ◌, int_eq}
use gezerah.Base.Lists.{All, length, remove_at, get_elem?}
use gezerah.Base.Map.{Map}
use gezerah.Errors.{Result, ok, err, ok-injective, >>=-eq-ok}
use gezerah.Types.{RulesId, Entity, StatusInstance, ConcreteEffect}
use gezerah.Transition.Instances.{at_or, matches_instance, find_instance, next_applied_order}
use gezerah.Transition.Orders.{BelowOrder, next_applied_order-above, find_instance_lem}
use gezerah.Transition.Apply.{
  Working, zero_instance, ordered_instance, record_applied, add_instance, apply_target,
  record_removed, remove_target,
}

module _ (entities : Map Entity) (effect : ConcreteEffect) (id : RulesId) where
  abbrev Ordered : List StatusInstance → StatusInstance → StatusInstance → Type 0
  Ordered statuses given i =
      (i ≡ record given { applied_order = i.applied_order })
      × (given.applied_order ≡ pos 0
          → (pos 0 <ℤ i.applied_order) × All (BelowOrder i.applied_order id) statuses)

  next-Ordered :
      (statuses : List StatusInstance) (given i : StatusInstance)
      → (given.applied_order == pos 0) ≡ true
      → ordered_instance entities effect statuses id given ≡ ok i
      → (r : Result ℤ) → next_applied_order statuses id ≡ r
      → Ordered statuses given i
  unfolding ordered_instance
  next-Ordered statuses given i zero_order h (ok order) next =
      subst (Ordered statuses given)
        (ok-injective (sym (unfold ordered_instance in ground (arith, zero_order, next)) ∙ h))
        (refl, λ _. next_applied_order-above statuses id order next)
  next-Ordered statuses given i zero_order h (err e) next =
      absurd (ground (arith, zero_order, next, h))

  -- The instance keeps its identity, and an order of zero is replaced by the next one.
  ordered_instance_lem :
      (statuses : List StatusInstance) (given i : StatusInstance)
      → ordered_instance entities effect statuses id given ≡ ok i
      → Ordered statuses given i
  unfolding ordered_instance
  ordered_instance_lem statuses given i h = elim (Bool-cases (given.applied_order == pos 0)) [
    | inl e ↦ next-Ordered statuses given i e h (next_applied_order statuses id) refl
    | inr e ↦
        let same : given ≡ i = ground (arith, e, h) in
        subst (Ordered statuses given) same (
          refl,
          λ zero_order.
              absurd
                (ground (arith, e, (int_eq.equals_law given.applied_order (pos 0)).1 zero_order)),
        )
  ]

  add_instance_lem :
      (w w' : Working) (i : StatusInstance)
      → add_instance entities effect id w i ≡ ok w'
      → (w'.statuses ≡ w.statuses ++ i ∷ [])
        × All (λ j. matches_instance id i.id j ≡ false) w.statuses
  unfolding add_instance record_applied
  add_instance_lem w w' i h = elim (find_instance_lem w.statuses id i.id) [
    | inl (n, j, found, at, hit) ↦ absurd (ground (arith, found, h))
    | inr (missing, others) ↦ (ground (arith, missing, h), others)
  ]

-- Where an apply-status effect succeeds on a target, exactly one instance is appended, the supplied
-- one up to its applied order; no instance of the target had its ID; and where the supplied order
-- is zero, the assigned one is positive and above that of every instance of the target.
pub apply_target_lem :
    (entities : Map Entity) (effect : ConcreteEffect) (id : RulesId) (w w' : Working)
    → apply_target entities effect id w ≡ ok w'
    → (i : StatusInstance) × (w'.statuses ≡ w.statuses ++ i ∷ [])
      × (i ≡ record (at_or effect.status_instances id zero_instance) {
        applied_order = i.applied_order;
      })
      × All (λ j. matches_instance id i.id j ≡ false) w.statuses
      × ((at_or effect.status_instances id zero_instance).applied_order ≡ pos 0
          → (pos 0 <ℤ i.applied_order) × All (BelowOrder i.applied_order id) w.statuses)
unfolding apply_target
apply_target_lem entities effect id w w' h =
    let given = at_or effect.status_instances id zero_instance in
    let (i, ordered, added) =
      >>=-eq-ok (ordered_instance entities effect w.statuses id given)
        (add_instance entities effect id w) h in
    let (same, above) = ordered_instance_lem entities effect id w.statuses given i ordered in
    let (more, fresh) = add_instance_lem entities effect id w w' i added in
    (i, more, same, fresh, above)

find_instance-append :
    (is : List StatusInstance) (entity_id id : RulesId) (i : StatusInstance)
    → All (λ j. matches_instance entity_id id j ≡ false) is
    → matches_instance entity_id id i ≡ true
    → find_instance (is ++ i ∷ []) entity_id id ≡ some (length is)
unfolding find_instance
find_instance-append [] entity_id id i others hit = rw hit refl
find_instance-append (j ∷ is) entity_id id i others hit =
    rw (others.0, find_instance-append is entity_id id i others.1 hit) refl

remove_at-append :
    (is : List StatusInstance) (i : StatusInstance) → remove_at (length is) (is ++ i ∷ []) ≡ is
remove_at-append [] i = refl
remove_at-append (j ∷ is) i = ap (λ r. j ∷ r) (remove_at-append is i)

matches_instance-own :
    (id : RulesId) (i : StatusInstance)
    → (i.entity_id == id) ≡ true
    → matches_instance id i.id i ≡ true
matches_instance-own id i own = ground (arith, own, eq_iff i.id i.id)

remove_target-found :
    (entities : Map Entity) (effect : ConcreteEffect) (id : RulesId) (w : Working) (n : ℕ)
    → find_instance w.statuses id (at_or effect.status_instance_ids id "") ≡ some n
    → (w' : Working) × (remove_target entities effect id w ≡ ok w')
      × (w'.statuses ≡ remove_at n w.statuses)
unfolding remove_target record_removed
remove_target-found entities effect id w n found = (
  record_removed entities effect id n
      (elim (get_elem? w.statuses n) [ none ↦ zero_instance | some i ↦ i ]) w,
  rw (found, remove_target) refl,
  refl,
)

-- A remove-status effect that names the instance which an apply-status effect has just appended for
-- its own target succeeds, and gives back the instances from before both effects.
pub remove_target-apply_target :
    (entities : Map Entity) (apply remove : ConcreteEffect) (id : RulesId) (w w' : Working)
    → apply_target entities apply id w ≡ ok w'
    → ((at_or apply.status_instances id zero_instance).entity_id == id) ≡ true
    → at_or remove.status_instance_ids id "" ≡ (at_or apply.status_instances id zero_instance).id
    → (w'' : Working) × (remove_target entities remove id w' ≡ ok w'') × (w''.statuses ≡ w.statuses)
remove_target-apply_target entities apply remove id w w' applied own named =
    let (i, more, same, fresh, above) = apply_target_lem entities apply id w w' applied in
    let here : (i.entity_id == id) ≡ true =
      rw (ap (λ (j : StatusInstance). j.entity_id) same) own in
    let found : find_instance w'.statuses id (at_or remove.status_instance_ids id "")
        ≡ some (length w.statuses) =
      rw (more, named, ← ap (λ (j : StatusInstance). j.id) same)
        (find_instance-append w.statuses id i.id i fresh (matches_instance-own id i here)) in
    let (w'', removed, less) =
      remove_target-found entities remove id w' (length w.statuses) found in
    (w'', removed, less ∙ rw more (remove_at-append w.statuses i))
