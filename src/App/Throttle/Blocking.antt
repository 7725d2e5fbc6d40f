-- ===== src/App/Throttle/Blocking.antt =====
-- Failures and blocking: passwords are refused to a key that has failed too often in its window.
use Prim.Native.Nat.{ℕ, ◌+◌, ◌<◌}
use Prim.Native.String.{String}
use mathlib.Core.Bool.{false}
use mathlib.Core.List.{List, [], ◌∷◌}
use mathlib.Core.Option.{some}
use mathlib.Core.Path.{◌≡◌, refl}
use native.Mathlib.Omega.{arith}
use text.Mathlib.TextEquality.{eq_iff}
use gezerah.Base.Lists.{All, length}
use gezerah.Base.Map.{lookup, insert, has, lookup-insert, lookup-delete}
use gezerah.Base.Tests.{◌==◌, string_eq, leb, if◌then◌else◌}
use gezerah.App.Throttle.{AuthThrottleEntry, Throttle, failure, blocked, clear}
use gezerah.App.Throttle.Bound.{length-insert-has}
use gezerah.App.Throttle.Windows.{prune-small, active_entry-open}

-- Failures of one key, each with the window and the time of the call.
pub failures : String → List (ℕ × ℕ) → Throttle → Throttle
failures key [] m = m
failures key ((window, now) ∷ later) m = failures key later (failure key window now m)

abbrev failed_once : ℕ → AuthThrottleEntry → AuthThrottleEntry
failed_once now e = record e { count = e.count + 1; last_seen = now }

length-insert-there :
    (key : String) (new : AuthThrottleEntry) (m : Throttle) (e : AuthThrottleEntry)
    → lookup key m ≡ some e
    → length (insert key new m) ≡ length m
length-insert-there key new m e there = length-insert-has key new m (rw (there, has) refl)

failure-small :
    (key : String) (window now : ℕ) (m : Throttle) (e : AuthThrottleEntry)
    → lookup key m ≡ some e
    → now < e.reset_at
    → length m < 8192
    → failure key window now m ≡ insert key (failed_once now e) m
unfolding failure
failure-small key window now m e there open_window room =
    rw (failure, active_entry-open key window now m e there open_window)
      (prune-small now (insert key (failed_once now e) m)
        (omega (arith, room, length-insert-there key (failed_once now e) m e there)))

-- While the window of an entry of a key is open, in a throttle with fewer than 8192 entries, the key
-- is blocked at a limit exactly when the failures that follow, with the count of the entry, reach it.
pub blocked-failures :
    (key : String) (limit now : ℕ) (times : List (ℕ × ℕ)) (m : Throttle) (e : AuthThrottleEntry)
    → lookup key m ≡ some e
    → now < e.reset_at
    → All (λ (_, t). t < e.reset_at) times
    → length m < 8192
    → blocked key limit now (failures key times m) ≡ leb limit (e.count + length times)
unfolding failures blocked
blocked-failures key limit now [] m e there open_window all_open room =
    rw (there, blocked) (ground (arith, open_window))
blocked-failures key limit now ((window, t) ∷ times) m e there open_window all_open room =
    let rest =
      blocked-failures key limit now times (insert key (failed_once t e) m) (failed_once t e)
        (ground (arith, lookup-insert key key (failed_once t e) m, eq_iff key key)) open_window
        all_open.1 (omega (arith, room, length-insert-there key (failed_once t e) m e there)) in
    rw (failures, failure-small key window t m e there all_open.0 room) (ground (arith, rest))

-- Behind clear a key is not blocked at any time or limit, and every other key is blocked as before.
pub blocked-clear :
    (key other : String) (limit now : ℕ) (m : Throttle)
    → blocked other limit now (clear key m)
      ≡ (if key == other then false else blocked other limit now m)
unfolding blocked clear
blocked-clear key other limit now m = ground (arith, lookup-delete key other m)
