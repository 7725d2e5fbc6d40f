-- ===== src/App/Throttle/Windows.antt =====
-- The windows of an authThrottle: what is admitted in one, and when a key is blocked. Below its
-- bound a throttle forgets nothing of its own accord.
use Prim.Native.Nat.{ℕ, suc, ◌+◌, ◌≤◌, ◌<◌}
use Prim.Native.String.{String}
use mathlib.Core.Bool.{not}
use mathlib.Core.List.{List, [], ◌∷◌}
use mathlib.Core.Logic.{inl, inr}
use mathlib.Core.Option.{some}
use mathlib.Core.Path.{◌≡◌, refl, subst}
use native.Mathlib.Omega.{arith}
use text.Mathlib.TextEquality.{eq_iff}
use gezerah.Base.Lists.{All, length}
use gezerah.Base.Map.{lookup, insert, has, lookup-insert}
use gezerah.Base.Tests.{◌==◌, string_eq, leb, if◌then◌else◌, Bool-cases}
use gezerah.App.Throttle.{AuthThrottleEntry, Throttle, active_entry, prune, take}
use gezerah.App.Throttle.Bound.{length-insert-has}

-- One call of take.
pub record Attempted : Type 0 where
  pub key : String
  pub window : ℕ
  pub now : ℕ

-- How many of the attempts at a key are admitted.
pub admitted : String → List Attempted → Throttle → ℕ
admitted key [] m = 0
admitted key (a ∷ later) m =
    let rest = admitted key later (take a.key a.window a.now m).1 in
    if a.key == key then if (take a.key a.window a.now m).0 then suc rest else rest else rest

-- How many of the attempts come with a key that the throttle does not hold at their turn.
unfoldable pub new_keys : List Attempted → Throttle → ℕ
new_keys [] m = 0
new_keys (a ∷ later) m =
    (if has a.key m then 0 else 1) + new_keys later (take a.key a.window a.now m).1

length-insert :
    (key : String) (e : AuthThrottleEntry) (m : Throttle) → length (insert key e m) ≤ suc (length m)
unfolding insert
length-insert key e [] = omega arith
length-insert key e ((k, x) ∷ m) = ground (arith, length-insert key e m)

-- An insertion adds an entry only for a new key.
length-insert-new :
    (key : String) (e : AuthThrottleEntry) (m : Throttle)
    → length (insert key e m) ≤ (if has key m then 0 else 1) + length m
length-insert-new key e m = elim (Bool-cases (has key m)) [
  | inl there ↦ rw there (omega (arith, length-insert-has key e m there))
  | inr new ↦ rw new (omega (arith, length-insert key e m))
]

pub prune-small : (now : ℕ) (m : Throttle) → length m < 8192 → prune now m ≡ m
unfolding prune
prune-small now m h = ground (arith, h)

pub active_entry-open :
    (key : String) (window now : ℕ) (m : Throttle) (e : AuthThrottleEntry)
    → lookup key m ≡ some e
    → now < e.reset_at
    → active_entry key now window m ≡ e
unfolding active_entry
active_entry-open key window now m e there open_window =
    rw (there, active_entry) (ground (arith, open_window))

-- The entry of a key behind a call of take.
abbrev attempted : ℕ → AuthThrottleEntry → AuthThrottleEntry
attempted now e = record e {
  count = if leb 120 e.count then e.count else e.count + 1;
  last_seen = now;
}

abbrev counted : String → ℕ → ℕ → Throttle → AuthThrottleEntry
counted key window now m = attempted now (active_entry key now window m)

-- A call of take behind which the throttle is below its bound.
take-small :
    (key : String) (window now : ℕ) (m : Throttle)
    → length (insert key (counted key window now m) m) < 8192
    → take key window now m ≡ (
      not (leb 120 (active_entry key now window m).count),
      insert key (counted key window now m) m,
    )
unfolding take
take-small key window now m room =
    let e : AuthThrottleEntry = active_entry key now window m in
    elim (Bool-cases (leb 120 e.count)) [
      | inl limited ↦ rw (limited, take) refl
      | inr free ↦
          let room' : length (insert key (record e { count = e.count + 1; last_seen = now }) m)
              < 8192 =
            rw free at room in
          rw (free, take)
            (rw
              (prune-small now (insert key (record e { count = e.count + 1; last_seen = now }) m)
                room')
              refl)
    ]

-- In the window of an entry that counts at most 120, at most 120 attempts of its key are admitted,
-- with those that the entry has counted; where the entries of the throttle and the keys that are
-- new to it are together fewer than 8192.
pub admitted-limit :
    (key : String) (attempts : List Attempted) (m : Throttle) (e : AuthThrottleEntry)
    → lookup key m ≡ some e
    → e.count ≤ 120
    → All (λ a. a.now < e.reset_at) attempts
    → length m + new_keys attempts m < 8192
    → admitted key attempts m + e.count ≤ 120
unfolding admitted new_keys
admitted-limit key [] m e there low open_window room = omega (arith, low)
admitted-limit key (a ∷ later) m e there low open_window room =
    let entry : AuthThrottleEntry = counted a.key a.window a.now m in
    let larger = length-insert-new a.key entry m in
    let small = take-small a.key a.window a.now m (omega (arith, room, larger)) in
    let room' : length (insert a.key entry m) + new_keys later (insert a.key entry m) < 8192 =
      omega (arith, rw small at room, larger) in
    elim (Bool-cases (a.key == key)) [
      | inl same ↦
          let active =
            active_entry-open a.key a.window a.now m e (rw ((eq_iff a.key key).0 same) there)
              open_window.0 in
          let small' =
            subst
              (λ x.
                take a.key a.window a.now m
                ≡ (not (leb 120 x.count), insert a.key (attempted a.now x) m))
              active small in
          let room'' =
            subst
              (λ x.
                length (insert a.key (attempted a.now x) m)
                  + new_keys later (insert a.key (attempted a.now x) m)
                < 8192)
              active room' in
          let rest =
            admitted-limit key later (insert a.key (attempted a.now e) m) (attempted a.now e)
              (rw (lookup-insert a.key key (attempted a.now e) m, same) refl) (ground (arith, low))
              open_window.1 room'' in
          rw (admitted, small', same) (ground (arith, rest))
      | inr other ↦
          rw (admitted, small, other)
            (admitted-limit key later (insert a.key entry m) e
              (rw (lookup-insert a.key key entry m, other) there) low open_window.1 room')
    ]
