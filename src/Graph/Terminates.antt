-- ===== src/Graph/Terminates.antt =====
-- The fuel of the walk of detectDependencyCycles suffices, so that ValidateMechanicGraph ends.
use Prim.Native.Nat.{ℕ, zero, suc, ◌≤◌, ◌<◌}
use Prim.Native.String.{String}
use mathlib.Core.Bool.{true}
use mathlib.Core.List.{List, [], ◌∷◌, ◌++◌}
use mathlib.Core.Logic.{inl, inr}
use mathlib.Core.Option.{Option, none, some}
use mathlib.Core.Option as Option
use mathlib.Core.Path.{◌≡◌, refl}
use native.Mathlib.Omega.{arith}
use gezerah.Base.Tests.{nat_beq, Bool-cases}
use gezerah.Base.Lists.{length, All}
use gezerah.Base.Map.{Map, insert, keys, has, has-keys, has-lookup}
use gezerah.Base.Sort.{sort_texts, All-sort_texts}
use gezerah.Errors.{ValidationErrors}
use gezerah.Types.{RulesId}
use gezerah.State.{Definitions}
use gezerah.Transition.Instances.{at_or}
use gezerah.Evaluation.Measure.{
  is_new, unopened, Grows, Grows-insert, unopened-le, unopened-insert, unopened-start,
}
use gezerah.Graph.Compile.{validate_graph, validate_mechanics}
use gezerah.Graph.Cycles.{
  ◌>>=◌, CycleWalk, report_cycle, walk_dependencies, visit_cycle, walk_roots, start_walk,
  detect_cycles,
}

-- The walk had enough fuel, and every mechanic that it opened stays opened.
abbrev Walks : Map ℕ → Option CycleWalk → Type 0
Walks before none = ⊥
Walks before (some w) = Grows before w.states

Walks-from : (a b : Map ℕ) (r : Option CycleWalk) → Grows a b → Walks b r → Walks a r
Walks-from a b none g h = elim h [ ]
Walks-from a b (some w) g h = λ id new. g id (h id new)

-- A last write that opens or closes mechanics.
Walks-write :
    (f : CycleWalk → CycleWalk) (before : Map ℕ) (r : Option CycleWalk)
    → ((w : CycleWalk) → Grows w.states (f w).states)
    → Walks before r
    → Walks before (r >>= λ w. some (f w))
Walks-write f before none grows h = elim h [ ]
Walks-write f before (some w) grows h = λ id new. h id (grows w id new)

report_cycle-states :
    (paths : Map String) (id dependency : RulesId) (w : CycleWalk)
    → (report_cycle paths id dependency w).states ≡ w.states
unfolding report_cycle
report_cycle-states paths id dependency w = ground arith

module _ (definitions : Definitions) (paths : Map (Map String)) (bound : ℕ) where
  abbrev Visits : (CycleWalk → Option CycleWalk) → Type 0
  Visits m = (w : CycleWalk) → unopened definitions w.states ≤ bound → Walks w.states (m w)

  Visits-bind :
      (f : CycleWalk → Option CycleWalk) (before : Map ℕ) (r : Option CycleWalk)
      → unopened definitions before ≤ bound
      → Walks before r
      → Visits f
      → Walks before (r >>= f)
  Visits-bind f before none few h later = elim h [ ]
  Visits-bind f before (some w) few h later =
      Walks-from before w.states (f w) h
        (later w (omega (arith, unopened-le definitions before w.states h)))

  walk_dependencies-Visits :
      (visit : RulesId → CycleWalk → Option CycleWalk) (id : RulesId)
      → ((dependency : RulesId) (w : CycleWalk)
          → has dependency definitions ≡ true
          → is_new w.states dependency ≡ true
          → unopened definitions w.states ≤ bound
          → Walks w.states (visit dependency w))
      → (ids : List RulesId) → Visits (walk_dependencies definitions paths visit id ids)
  unfolding walk_dependencies
  walk_dependencies-Visits visit id visits [] w few = λ j new. new
  walk_dependencies-Visits visit id visits (d ∷ ds) w few =
      Visits-bind (walk_dependencies definitions paths visit id ds) w.states _ few
        (elim (Bool-cases (has d definitions)) [
          | inr absent ↦ rw absent (λ j new. new)
          | inl there ↦ elim (Bool-cases (nat_beq (at_or w.states d 0) 0)) [
            | inl new ↦ rw (there, new) (visits d w there (ground (arith, new)) few)
            | inr old ↦ elim (Bool-cases (nat_beq (at_or w.states d 0) 1)) [
              | inl active ↦
                  rw (there, old, active, report_cycle-states (at_or paths id []) id d w)
                    (λ j new. new)
              | inr done ↦ rw (there, old, done) (λ j new. new)
            ]
          ]
        ])
        (walk_dependencies-Visits visit id visits ds)

module _ (definitions : Definitions) (paths : Map (Map String)) where
  Walks-bind :
      (fuel : ℕ) (f : CycleWalk → Option CycleWalk) (before : Map ℕ) (r : Option CycleWalk)
      → unopened definitions before < fuel
      → Walks before r
      → ((w : CycleWalk) → unopened definitions w.states < fuel → Walks w.states (f w))
      → Walks before (r >>= f)
  Walks-bind fuel f before none few h later = elim h [ ]
  Walks-bind fuel f before (some w) few h later =
      Walks-from before w.states (f w) h
        (later w (omega (arith, unopened-le definitions before w.states h)))

  visit_cycle-Walks :
      (fuel : ℕ) (id : RulesId) (w : CycleWalk)
      → has id definitions ≡ true
      → is_new w.states id ≡ true
      → unopened definitions w.states < fuel
      → Walks w.states (visit_cycle definitions paths fuel id w)
  unfolding visit_cycle
  visit_cycle-Walks zero id w there new few = absurd (omega arith)
  visit_cycle-Walks (suc fuel) id w there new few =
      let (d, found) = has-lookup id definitions there in
      Walks-from w.states (insert id 1 w.states) _ (Grows-insert w.states id 1 refl) (
        Walks-write _ (insert id 1 w.states) _ (λ w'. Grows-insert w'.states id 2 refl)
          (walk_dependencies-Visits definitions paths (unopened definitions (insert id 1 w.states))
            (visit_cycle definitions paths fuel) id
            (λ j w' there' new' few'.
              visit_cycle-Walks fuel j w' there' new'
                (omega (arith, few', few, unopened-insert definitions w.states id d found new)))
            (sort_texts (keys (at_or paths id []))) _ (omega arith)))

  walk_roots-Walks :
      (fuel : ℕ) (ids : List RulesId)
      → All (λ id. has id definitions ≡ true) ids
      → (w : CycleWalk) → unopened definitions w.states < fuel
      → Walks w.states (walk_roots definitions paths fuel ids w)
  unfolding walk_roots
  walk_roots-Walks fuel [] known w few = λ j new. new
  walk_roots-Walks fuel (id ∷ ids) known w few =
      Walks-bind fuel (walk_roots definitions paths fuel ids) w.states _ few
        (elim (Bool-cases (nat_beq (at_or w.states id 0) 0)) [
          | inl new ↦ rw new (visit_cycle-Walks fuel id w known.0 (ground (arith, new)) few)
          | inr old ↦ rw old (λ j new. new)
        ])
        (walk_roots-Walks fuel ids known.1)

-- For all definitions, valid or not, ValidateMechanicGraph returns its errors: the fuel of the walk
-- that looks for cycles, one more than there are definitions, never runs out.
pub validate_graph-total :
    (definitions : Definitions)
    → (errs : ValidationErrors) × (validate_graph definitions ≡ some errs)
unfolding validate_graph detect_cycles
validate_graph-total definitions = by_walk _ (
    walk_roots-Walks definitions (validate_mechanics definitions (sort_texts (keys definitions))).1
      (suc (length definitions)) (sort_texts (keys definitions))
      (All-sort_texts _ (keys definitions) (has-keys definitions)) start_walk
      (omega (arith, unopened-start definitions)))
  where
    by_walk :
        (r : Option CycleWalk)
        → Walks [] r
        → (errs : ValidationErrors) × (Option.map
              (λ cycles.
                (validate_mechanics definitions (sort_texts (keys definitions))).0 ++ cycles)
              (r >>= λ w. some w.errors)
            ≡ some errs)
    by_walk none h = elim h [ ]
    by_walk (some w) h = (_, refl)
