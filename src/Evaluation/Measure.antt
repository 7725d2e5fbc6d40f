-- ===== src/Evaluation/Measure.antt =====
-- The mechanics that an evaluation has not yet opened, and how the states of an evaluator grow.
use Prim.Native.Nat.{ℕ, ◌+◌, ◌≤◌, ◌<◌}
use mathlib.Core.Bool.{Bool, true, false, ◌||◌, not}
use mathlib.Core.List.{[], ◌∷◌}
use mathlib.Core.Logic.{inl, inr}
use mathlib.Core.Option.{some}
use mathlib.Core.Path.{◌≡◌, refl}
use native.Mathlib.Omega.{arith}
use text.Mathlib.TextEquality.{eq_iff}
use gezerah.Base.Tests.{◌==◌, nat_beq, string_eq, if◌then◌else◌, Bool-cases}
use gezerah.Base.Lists.{length}
use gezerah.Base.Map.{Map, lookup, insert, lookup-insert}
use gezerah.Types.{RulesId, MechanicDefinition}
use gezerah.State.{Definitions}
use gezerah.Transition.Instances.{at_or}

-- Neither 1, open, nor 2, closed.
abbrev pub is_untouched : ℕ → Bool
is_untouched n = not (nat_beq n 1 || nat_beq n 2)

abbrev pub is_new : Map ℕ → RulesId → Bool
is_new states id = is_untouched (at_or states id 0)

-- The definitions that were never opened.
pub unopened : Definitions → Map ℕ → ℕ
unopened [] states = 0
unopened ((id, d) ∷ m) states = (if is_new states id then 1 else 0) + unopened m states

-- What was opened stays so.
abbrev pub Grows : Map ℕ → Map ℕ → Type 0
Grows before after = (id : RulesId) → is_new after id ≡ true → is_new before id ≡ true

pub Grows-insert :
    (states : Map ℕ) (id : RulesId) (n : ℕ)
    → is_untouched n ≡ false
    → Grows states (insert id n states)
Grows-insert states id n h j new = ground (arith, lookup-insert id j n states)

pub unopened-le :
    (m : Definitions) (before after : Map ℕ)
    → Grows before after
    → unopened m after ≤ unopened m before
unfolding unopened
unopened-le [] before after grows = omega arith
unopened-le ((id, d) ∷ m) before after grows =
    ground (arith, grows id, unopened-le m before after grows)

pub unopened-insert :
    (m : Definitions) (states : Map ℕ) (id : RulesId) (d : MechanicDefinition)
    → lookup id m ≡ some d
    → is_new states id ≡ true
    → unopened m (insert id 1 states) < unopened m states
unfolding unopened lookup
unopened-insert [] states id d found new = ground arith
unopened-insert ((j, e) ∷ m) states id d found new = elim (Bool-cases (j == id)) [
  | inl same ↦ ground (
    arith,
    same,
    eq_iff j id,
    eq_iff id j,
    lookup-insert id j 1 states,
    unopened-le m states (insert id 1 states) (Grows-insert states id 1 refl),
  )
  | inr other ↦ ground (
    arith,
    other,
    eq_iff j id,
    eq_iff id j,
    lookup-insert id j 1 states,
    unopened-insert m states id d (rw other at found) new,
  )
]

pub unopened-start : (m : Definitions) → unopened m [] ≤ length m
unfolding unopened lookup
unopened-start [] = omega arith
unopened-start ((j, d) ∷ m) = omega (arith, unopened-start m)
