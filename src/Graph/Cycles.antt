-- ===== src/Graph/Cycles.antt =====
-- detectDependencyCycles and dependencyOrder of internal/rules/expressions.go: two depth-first
-- walks. A call takes fuel, one for each mechanic that may be open below it; `none` means that the
-- fuel ran out.
use Prim.Native.Nat.{ℕ, zero, suc}
use Prim.Native.String.{String, ◌++◌ as join}
use mathlib.Core.List.{List, [], ◌∷◌, ◌++◌}
use mathlib.Core.Option.{Option, none, some}
use gezerah.Base.Tests.{◌==◌, nat_beq, string_eq, if◌then◌else◌}
use gezerah.Base.Lists.{length, drop}
use gezerah.Base.Map.{Map, lookup, insert, delete, keys, has}
use gezerah.Base.Text.{keyed, join_texts}
use gezerah.Base.Sort.{sort_texts}
use gezerah.Errors.{ValidationErrors, fault}
use gezerah.Types.{RulesId}
use gezerah.State.{Definitions}
use gezerah.Statuses.{seen}
use gezerah.Transition.Instances.{at_or}

infixl 5 ◌>>=◌
abbrev pub ◌>>=◌ {ℓ κ} : {A : Type ℓ} {B : Type κ} → Option A → (A → Option B) → Option B
none >>= f = none
some a >>= f = f a

-- xs[:len(xs)-1]
unfoldable pub drop_last {ℓ} : {A : Type ℓ} → List A → List A
drop_last [] = []
drop_last (x ∷ []) = []
drop_last (x ∷ y ∷ ys) = x ∷ drop_last (y ∷ ys)

-- What the walk of detectDependencyCycles writes to. A state is 0 before a visit, 1 during it and 2
-- behind it.
pub record CycleWalk : Type 0 where
  pub states : Map ℕ
  pub stack : List RulesId
  pub stack_indexes : Map ℕ
  pub reported : List String
  pub errors : ValidationErrors

abbrev open_mechanic : RulesId → CycleWalk → CycleWalk
open_mechanic id w = record w {
  states = insert id 1 w.states;
  stack_indexes = insert id (length w.stack) w.stack_indexes;
  stack = w.stack ++ id ∷ [];
}

abbrev close_mechanic : RulesId → CycleWalk → CycleWalk
close_mechanic id w = record w {
  stack = drop_last w.stack;
  stack_indexes = delete id w.stack_indexes;
  states = insert id 2 w.states;
}

abbrev recorded_path : RulesId → Option String → String
recorded_path id none = join (keyed "mechanics" id) ".expression"
recorded_path id (some p) = if p == "" then join (keyed "mechanics" id) ".expression" else p

-- The case of a dependency that is on the stack.
unfoldable pub report_cycle : Map String → RulesId → RulesId → CycleWalk → CycleWalk
report_cycle paths id dependency w =
    let key =
      join_texts " -> " (drop (at_or w.stack_indexes dependency 0) w.stack ++ dependency ∷ []) in
    if seen key w.reported then w else record w {
      reported = key ∷ w.reported;
      errors =
          w.errors
          ++ fault "dependency_cycle" (recorded_path id (lookup dependency paths))
              (join "dependency cycle: " key);
    }

module _ (definitions : Definitions) (paths : Map (Map String)) where
  -- The loop over the sorted dependencies of `id`.
  unfoldable pub walk_dependencies :
      (RulesId → CycleWalk → Option CycleWalk)
      → RulesId
      → List RulesId
      → CycleWalk
      → Option CycleWalk
  walk_dependencies visit id [] w = some w
  walk_dependencies visit id (dependency ∷ rest) w = do
    w' ←
        (if has dependency definitions
          then (let state = at_or w.states dependency 0 in
              if nat_beq state 0
              then visit dependency w
              else if nat_beq state 1
              then some (report_cycle (at_or paths id []) id dependency w)
              else some w)
          else some w)
    walk_dependencies visit id rest w'

  -- visit
  unfoldable pub visit_cycle : ℕ → RulesId → CycleWalk → Option CycleWalk
  visit_cycle zero id w = none
  visit_cycle (suc fuel) id w = do
    w' ←
        walk_dependencies (visit_cycle fuel) id (sort_texts (keys (at_or paths id [])))
          (open_mechanic id w)
    some (close_mechanic id w')

  unfoldable pub walk_roots : ℕ → List RulesId → CycleWalk → Option CycleWalk
  walk_roots fuel [] w = some w
  walk_roots fuel (id ∷ ids) w = do
    w' ← (if nat_beq (at_or w.states id 0) 0 then visit_cycle fuel id w else some w)
    walk_roots fuel ids w'

abbrev pub start_walk : CycleWalk
start_walk = record { states = []; stack = []; stack_indexes = []; reported = []; errors = [] }

-- detectDependencyCycles
unfoldable pub detect_cycles : Definitions → Map (Map String) → Option ValidationErrors
detect_cycles definitions paths = do
  w ←
      walk_roots definitions paths (suc (length definitions)) (sort_texts (keys definitions))
        start_walk
  some w.errors

-- What the walk of dependencyOrder writes to.
pub record OrderWalk : Type 0 where
  pub visited : List RulesId
  pub order : List RulesId

module _ (dependencies : Map (List RulesId)) where
  unfoldable pub order_all :
      (RulesId → OrderWalk → Option OrderWalk) → List RulesId → OrderWalk → Option OrderWalk
  order_all visit [] w = some w
  order_all visit (id ∷ ids) w = do w' ← visit id w; order_all visit ids w'

  -- visit
  unfoldable pub visit_order : ℕ → RulesId → OrderWalk → Option OrderWalk
  visit_order zero id w = none
  visit_order (suc fuel) id w =
      let inside = do
        w' ←
            order_all (visit_order fuel) (at_or dependencies id [])
              (record w { visited = id ∷ w.visited })
        some (record w' { order = w'.order ++ id ∷ [] })
      in if seen id w.visited then some w else inside

-- dependencyOrder
unfoldable pub dependency_order : Definitions → Map (List RulesId) → Option (List RulesId)
dependency_order definitions dependencies = do
  w ←
      order_all dependencies (visit_order dependencies (suc (suc (length definitions))))
        (sort_texts (keys definitions)) (record { visited = []; order = [] })
  some w.order
