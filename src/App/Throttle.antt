-- ===== src/App/Throttle.antt =====
-- internal/app/auth.go: authThrottle, which counts the attempts to sign in. The lock makes every
-- method one step, so that a throttle is its map of entries; a time is a number, and `now` is what
-- the clock gives to the call.
pub mod Bound
pub mod Windows
pub mod Blocking
use Prim.Native.Nat.{ℕ, ◌+◌, ◌*◌, ◌/◌}
use Prim.Native.String.{String}
use mathlib.Core.Bool.{Bool, true, false}
use mathlib.Core.List.{List, [], ◌∷◌}
use mathlib.Core.Option.{none, some}
use gezerah.Base.Lists.{length}
use gezerah.Base.Map.{Map, lookup, insert, delete}
use gezerah.Base.Sort.{sort}
use gezerah.Base.Tests.{ltb, leb, if◌then◌else◌}

abbrev pub max_auth_throttle_entries : ℕ
max_auth_throttle_entries = 8192

abbrev pub auth_attempt_limit : ℕ
auth_attempt_limit = 120

-- authThrottleEntry
pub record AuthThrottleEntry : Type 0 where
  pub count : ℕ
  pub reset_at : ℕ
  pub last_seen : ℕ

abbrev pub Throttle : Type 0
Throttle = Map AuthThrottleEntry

-- activeEntry
unfoldable pub active_entry : String → ℕ → ℕ → Throttle → AuthThrottleEntry
active_entry key now window entries =
    let fresh : AuthThrottleEntry = record {
      count = 0;
      reset_at = now + window;
      last_seen = now;
    } in
    elim (lookup key entries) [
      | none ↦ fresh
      | some entry ↦ if ltb now entry.reset_at then entry else fresh
    ]

-- the first loop of prune
unfoldable pub drop_expired : ℕ → Throttle → Throttle
drop_expired now [] = []
drop_expired now ((key, entry) ∷ entries) =
    let rest = drop_expired now entries in
    if ltb now entry.reset_at then (key, entry) ∷ rest else rest

-- the last loop of prune
unfoldable pub drop_oldest : ℕ → Throttle → Throttle → Throttle
drop_oldest target [] entries = entries
drop_oldest target ((key, entry) ∷ candidates) entries =
    let rest = drop_oldest target candidates (delete key entries) in
    if ltb target (length entries) then rest else entries

-- prune
unfoldable pub prune : ℕ → Throttle → Throttle
unfolding drop_expired drop_oldest
prune now entries =
    if ltb (length entries) max_auth_throttle_entries
    then entries
    else let alive = drop_expired now entries in
      if ltb (length alive) max_auth_throttle_entries
      then alive
      else drop_oldest (max_auth_throttle_entries * 3 / 4)
          (sort (λ (_, left) (_, right). ltb left.last_seen right.last_seen) alive) alive

-- take
unfoldable pub take : String → ℕ → ℕ → Throttle → Bool × Throttle
unfolding active_entry prune
take key window now entries =
    let entry = active_entry key now window entries in
    if leb auth_attempt_limit entry.count
    then (false, insert key (record entry { last_seen = now }) entries)
    else (
      true,
      prune now (insert key (record entry { count = entry.count + 1; last_seen = now }) entries),
    )

-- blocked
unfoldable pub blocked : String → ℕ → ℕ → Throttle → Bool
blocked key limit now entries = elim (lookup key entries) [
  | none ↦ false
  | some entry ↦ if ltb now entry.reset_at then leb limit entry.count else false
]

-- failure
unfoldable pub failure : String → ℕ → ℕ → Throttle → Throttle
unfolding active_entry prune
failure key window now entries =
    let entry = active_entry key now window entries in
    prune now (insert key (record entry { count = entry.count + 1; last_seen = now }) entries)

-- clear
unfoldable pub clear : String → Throttle → Throttle
clear key entries = delete key entries
