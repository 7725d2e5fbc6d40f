-- ===== src/App/Throttle/Bound.antt =====
-- The bound on the entries of an authThrottle.
use Prim.Native.Nat.{ℕ, ◌+◌, ◌≤◌, ◌<◌}
use Prim.Native.String.{String}
use mathlib.Core.Bool.{Bool, true, false}
use mathlib.Core.List.{List, [], ◌∷◌}
use mathlib.Core.Logic.{inl, inr}
use mathlib.Core.Option.{none}
use mathlib.Core.Path.{◌≡◌, refl}
use native.Mathlib.Omega.{arith}
use text.Mathlib.TextEquality.{eq_iff}
use gezerah.Base.Lists.{All, length}
use gezerah.Base.Map.{lookup, insert, delete, has, lookup-delete}
use gezerah.Base.Sort.{sort, All-sort_of}
use gezerah.Base.Tests.{◌==◌, string_eq, ltb, leb, Bool-cases, Option-cases}
use gezerah.App.Throttle.{
  AuthThrottleEntry, Throttle, active_entry, drop_expired, drop_oldest, prune, take, failure, clear,
}

-- Nothing of the list has the key.
abbrev Absent : String → Throttle → Type 0
Absent key = All (λ (k, _). (k == key) ≡ false)

lookup-Absent : (key : String) (m : Throttle) → Absent key m → lookup key m ≡ none
unfolding lookup
lookup-Absent key [] h = refl
lookup-Absent key ((k, e) ∷ m) h = rw (h.0) (lookup-Absent key m h.1)

Absent-lookup : (key : String) (m : Throttle) → lookup key m ≡ none → Absent key m
unfolding lookup
Absent-lookup key [] h = tt
Absent-lookup key ((k, e) ∷ m) h = elim (Bool-cases (k == key)) [
  | inl same ↦ absurd (ground (arith, same, h))
  | inr other ↦ (other, Absent-lookup key m (ground (arith, other, h)))
]

nothing : (m : Throttle) → ((key : String) → lookup key m ≡ none) → m ≡ []
unfolding lookup
nothing [] h = refl
nothing ((k, e) ∷ m) h = absurd (ground (arith, h k, eq_iff k k))

-- The candidates have every key of the entries.
abbrev Covered : Throttle → Throttle → Type 0
Covered candidates m = (key : String) → Absent key candidates → lookup key m ≡ none

drop_oldest-length :
    (target : ℕ) (candidates m : Throttle)
    → Covered candidates m
    → length (drop_oldest target candidates m) ≤ target
unfolding drop_oldest
drop_oldest-length target [] m covered = rw (nothing m (λ key. covered key tt)) (omega arith)
drop_oldest-length target ((k, e) ∷ candidates) m covered =
    let rest : length (drop_oldest target candidates (delete k m)) ≤ target =
      drop_oldest-length target candidates (delete k m) (λ key absent.
        elim (Bool-cases (k == key)) [
          | inl same ↦ rw (lookup-delete k key m, same) refl
          | inr other ↦ rw (lookup-delete k key m, other) (covered key (other, absent))
        ]) in
    ground (arith, rest)

prune-length : (now : ℕ) (m : Throttle) → length (prune now m) < 8192
unfolding prune
prune-length now m =
    let less : (String × AuthThrottleEntry) → (String × AuthThrottleEntry) → Bool =
      λ (_, left) (_, right). ltb left.last_seen right.last_seen in
    let alive : Throttle = drop_expired now m in
    let kept : length (drop_oldest 6144 (sort less alive) alive) ≤ 6144 =
      drop_oldest-length 6144 (sort less alive) alive (λ key absent.
        lookup-Absent key alive (All-sort_of less (λ (k, _). (k == key) ≡ false) alive absent)) in
    ground (arith, kept)

pub length-insert-has :
    (key : String) (e : AuthThrottleEntry) (m : Throttle)
    → has key m ≡ true
    → length (insert key e m) ≡ length m
unfolding lookup insert
length-insert-has key e [] h = cc
length-insert-has key e ((k, x) ∷ m) h = elim (Bool-cases (k == key)) [
  | inl same ↦ rw same refl
  | inr other ↦ rw other (omega (arith, length-insert-has key e m (ground (arith, h, other))))
]

length-delete : (key : String) (m : Throttle) → length (delete key m) ≤ length m
unfolding delete
length-delete key [] = omega arith
length-delete key ((k, x) ∷ m) = ground (arith, length-delete key m)

limited-has :
    (key : String) (window now : ℕ) (m : Throttle)
    → leb 120 (active_entry key now window m).count ≡ true
    → has key m ≡ true
unfolding active_entry
limited-has key window now m limited = elim (Option-cases (lookup key m)) [
  | inl missing ↦ absurd (ground (arith, missing, limited))
  | inr (e, there) ↦ rw (there, has) refl
]

-- A method of an authThrottle, with what it is called with and what its clock shows.
pub data Call : Type 0 where
  take_call failure_call : (key : String) (window now : ℕ) → Call
  clear_call : (key : String) → Call

abbrev pub call : Call → Throttle → Throttle
call (take_call key window now) m = (take key window now m).1
call (failure_call key window now) m = failure key window now m
call (clear_call key) m = clear key m

pub calls : List Call → Throttle → Throttle
calls [] m = m
calls (c ∷ cs) m = calls cs (call c m)

call-length : (c : Call) (m : Throttle) → length m < 8192 → length (call c m) < 8192
unfolding take failure clear
call-length (take_call key window now) m h =
    let e : AuthThrottleEntry = active_entry key now window m in
    elim (Bool-cases (leb 120 e.count)) [
      | inl limited ↦
          rw (limited, length, take)
            (omega (
              arith,
              h,
              length-insert-has key (record e { last_seen = now }) m
                  (limited-has key window now m limited),
            ))
      | inr free ↦
          rw (free, length, take)
            (prune-length now (insert key (record e { count = e.count + 1; last_seen = now }) m))
    ]
call-length (failure_call key window now) m h =
    let e : AuthThrottleEntry = active_entry key now window m in
    prune-length now (insert key (record e { count = e.count + 1; last_seen = now }) m)
call-length (clear_call key) m h = omega (arith, length-delete key m, h)

-- A throttle with fewer than 8192 entries has fewer than 8192 behind every sequence of calls of
-- take, failure and clear, whatever their keys and times.
pub calls-length : (cs : List Call) (m : Throttle) → length m < 8192 → length (calls cs m) < 8192
unfolding calls
calls-length [] m h = h
calls-length (c ∷ cs) m h = calls-length cs (call c m) (call-length c m h)
