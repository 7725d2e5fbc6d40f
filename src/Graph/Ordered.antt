-- ===== src/Graph/Ordered.antt =====
-- The fuel of the walk of dependencyOrder suffices, so that CompileMechanicGraph ends.
use Prim.Native.Nat.{ℕ, zero, suc, ◌+◌, ◌≤◌, ◌<◌}
use mathlib.Core.Bool.{true, false}
use mathlib.Core.List.{List, [], ◌∷◌, ◌++◌}
use mathlib.Core.Logic.{inl, inr}
use mathlib.Core.Option.{Option, none, some}
use mathlib.Core.Path.{◌≡◌, refl}
use native.Mathlib.Omega.{arith}
use text.Mathlib.TextEquality.{eq_iff}
use gezerah.Base.Tests.{◌==◌, string_eq, if◌then◌else◌, Bool-cases}
use gezerah.Base.Lists.{length}
use gezerah.Base.Map.{Map, lookup, keys, has}
use gezerah.Base.Sort.{sort_texts}
use gezerah.Types.{RulesId}
use gezerah.State.{Definitions}
use gezerah.Statuses.{seen}
use gezerah.Transition.Instances.{at_or}
use gezerah.Graph.Cycles.{◌>>=◌, OrderWalk, order_all, visit_order, dependency_order}

-- The definitions that the walk has not visited.
unvisited : Definitions → List RulesId → ℕ
unvisited [] ids = 0
unvisited ((id, d) ∷ m) ids = (if seen id ids then 0 else 1) + unvisited m ids

abbrev Extends : List RulesId → List RulesId → Type 0
Extends before after = (id : RulesId) → seen id before ≡ true → seen id after ≡ true

unvisited-le :
    (m : Definitions) (before after : List RulesId)
    → Extends before after
    → unvisited m after ≤ unvisited m before
unfolding unvisited
unvisited-le [] before after h = omega arith
unvisited-le ((id, d) ∷ m) before after h = ground (arith, h id, unvisited-le m before after h)

unvisited-visit :
    (m : Definitions) (ids : List RulesId) (id : RulesId)
    → has id m ≡ true
    → seen id ids ≡ false
    → unvisited m (id ∷ ids) < unvisited m ids
unfolding unvisited lookup seen
unvisited-visit [] ids id there new = ground arith
unvisited-visit ((j, e) ∷ m) ids id there new = elim (Bool-cases (j == id)) [
  | inl same ↦ ground (
    arith,
    same,
    eq_iff j id,
    eq_iff id j,
    unvisited-le m ids (id ∷ ids) (λ k old. ground (arith, old)),
  )
  | inr other ↦ ground (
    arith,
    other,
    eq_iff j id,
    eq_iff id j,
    unvisited-visit m ids id (ground (arith, other, there)) new,
  )
]

unvisited-start : (m : Definitions) → unvisited m [] ≤ length m
unfolding unvisited seen
unvisited-start [] = omega arith
unvisited-start ((j, d) ∷ m) = ground (arith, unvisited-start m)

-- The walk had enough fuel and forgot no visit.
abbrev Visited : List RulesId → Option OrderWalk → Type 0
Visited before none = ⊥
Visited before (some w) = Extends before w.visited

Visited-from : (a b : List RulesId) (r : Option OrderWalk) → Extends a b → Visited b r → Visited a r
Visited-from a b none g h = elim h [ ]
Visited-from a b (some w) g h = λ id old. h id (g id old)

-- A last write to the order.
Visited-write :
    (f : OrderWalk → List RulesId) (before : List RulesId) (r : Option OrderWalk)
    → Visited before r
    → Visited before (r >>= λ w. some (record w { order = f w }))
Visited-write f before none h = elim h [ ]
Visited-write f before (some w) h = h

module _ (definitions : Definitions) (dependencies : Map (List RulesId))
    (closed : (id : RulesId) → has id definitions ≡ false → at_or dependencies id [] ≡ []) where
  order_all-Visited :
      (bound : ℕ) (visit : RulesId → OrderWalk → Option OrderWalk)
      → ((id : RulesId) (w : OrderWalk)
          → unvisited definitions w.visited ≤ bound
          → Visited w.visited (visit id w))
      → (ids : List RulesId) (w : OrderWalk) → unvisited definitions w.visited ≤ bound
      → Visited w.visited (order_all dependencies visit ids w)
  unfolding order_all
  order_all-Visited bound visit visits [] w few = λ j old. old
  order_all-Visited bound visit visits (id ∷ ids) w few =
      by_visit (visit id w) (visits id w few)
        (λ w' few'. order_all-Visited bound visit visits ids w' few')
    where
      by_visit :
          (r : Option OrderWalk)
          → Visited w.visited r
          → ((w' : OrderWalk)
              → unvisited definitions w'.visited ≤ bound
              → Visited w'.visited (order_all dependencies visit ids w'))
          → Visited w.visited (r >>= order_all dependencies visit ids)
      by_visit none h later = elim h [ ]
      by_visit (some w') h later =
          Visited-from w.visited w'.visited (order_all dependencies visit ids w') h
            (later w' (omega (arith, few, unvisited-le definitions w.visited w'.visited h)))

  visit_order-Visited :
      (fuel : ℕ) (id : RulesId) (w : OrderWalk)
      → suc (unvisited definitions w.visited) < fuel
      → Visited w.visited (visit_order dependencies fuel id w)
  unfolding visit_order
  visit_order-Visited zero id w few = absurd (omega arith)
  visit_order-Visited (suc fuel) id w few = elim (Bool-cases (seen id w.visited)) [
    | inl old ↦ rw old (λ j there. there)
    | inr new ↦ rw new (
        Visited-write (λ w'. w'.order ++ id ∷ []) w.visited _
          (Visited-from w.visited (id ∷ w.visited) _ (λ j old. unfold seen in ground (arith, old))
            (elim (Bool-cases (has id definitions)) [
              | inl there ↦
                  order_all-Visited (unvisited definitions (id ∷ w.visited))
                    (visit_order dependencies fuel)
                    (λ j w' few'. visit_order-Visited fuel j w' (
                      omega (arith, few, few', unvisited-visit definitions w.visited id there new)))
                    (at_or dependencies id []) _ (omega arith)
              | inr absent ↦ rw (closed id absent) (unfold order_all in (λ j old. old))
            ])))
  ]

  -- dependencyOrder, where every mechanic with dependencies is defined.
  pub dependency_order-total :
      (order : List RulesId) × (dependency_order definitions dependencies ≡ some order)
  unfolding dependency_order
  dependency_order-total =
      by_walk (order_all dependencies visit (sort_texts (keys definitions)) start) (
        order_all-Visited (length definitions) visit
          (λ j w few. visit_order-Visited (suc (suc (length definitions))) j w (omega arith))
          (sort_texts (keys definitions)) start (unvisited-start definitions))
    where
      visit : RulesId → OrderWalk → Option OrderWalk
      visit = visit_order dependencies (suc (suc (length definitions)))

      start : OrderWalk
      start = record { visited = []; order = [] }

      by_walk :
          (r : Option OrderWalk)
          → Visited [] r
          → (order : List RulesId) × ((r >>= λ w. some w.order) ≡ some order)
      by_walk none h = elim h [ ]
      by_walk (some w) h = (w.order, refl)
