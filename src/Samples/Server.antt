-- ===== src/Samples/Server.antt =====
-- The theorems about internal/app at concrete inputs: a world with one interaction, a few attempts
-- to sign in, and a hash by a function of keys that stands in for Argon2id.
use Prim.Native.Nat.{ℕ, zero, suc, ◌+◌, ◌≤◌, ◌<◌}
use mathlib.Core.Bool.{true, false, not, ◌&&◌}
use mathlib.Core.List.{List, [], ◌∷◌}
use mathlib.Core.Logic.{inr}
use mathlib.Core.Option.{some, none}
use mathlib.Core.Path.{◌≡◌, refl, ap}
use native.Mathlib.Omega.{arith}
use gezerah.Base.Int.{pos}
use gezerah.Base.Lists.{any, All, length, replicate}
use gezerah.Base.Map.{lookup, insert, Entries}
use gezerah.Base.Text.{codes}
use gezerah.Errors.{ok}
use gezerah.Base.Tests.{◌==◌, string_eq}
use gezerah.Graph.Compile.{compiled_dependencies}
use gezerah.Statuses.{seen}
use gezerah.App.Dependents.{has_active_mechanic_dependents, has_active_mechanic_dependents-any}
use gezerah.Samples.Program.{program}
use gezerah.Samples.World.{mechanics}
use gezerah.App.Failures.{done}
use gezerah.App.Lifecycle.{
  Interaction, status_draft, status_cancelled, Store, Command, command_present, command_adjudicate,
  command_cancel, Member, Request, Outside, is_final, authorize,
}
use gezerah.App.Lifecycle.Handler.{handle_lifecycle, expected_revision, transact, change}
use gezerah.App.Lifecycle.Steps.{Refines, handle_lifecycle-Refines}
use gezerah.App.Lifecycle.Runs.{run, run-final}
use gezerah.App.Lifecycle.Locking.{handle_lifecycle-stale}
use gezerah.App.Lifecycle.Shape.{Shape, run-Shape}
use gezerah.App.Lifecycle.Ends.{cancel_request, ended, handle_lifecycle-ends}
use gezerah.App.Throttle.{AuthThrottleEntry, blocked, take, active_entry, prune}
use gezerah.App.Throttle.Bound.{take_call, failure_call, clear_call, Call, calls, calls-length}
use gezerah.App.Throttle.Windows.{Attempted, admitted, new_keys, admitted-limit}
use gezerah.App.Throttle.Blocking.{failures, blocked-failures}
use gezerah.App.Base64.{encode64, decode64, decode64-encode64}
use gezerah.App.Passwords.{
  Bytes, current_password_parameters, Argon2, encode_password, decode_password_hash,
  verify_password, hash_password, password_hash_needs_upgrade,
}
use gezerah.App.Passwords.Roundtrip.{DerivesKeys, decode_password_hash-encode_password}
use gezerah.App.Passwords.Verify.{verify_password-hash_password}
use gezerah.App.Passwords.Admits.{Sound, decode_password_hash-Sound}

abbrev master : Member
master = record { id = "m1"; role = "player"; facilitator = true }

abbrev riddle : Interaction
riddle = record {
  status = status_draft;
  revision = 4;
  facilitator_source = "human";
  presented_at = none;
  resolved_at = none;
  cancelled_at = none;
}

-- Nothing fails, at the time 7.
abbrev outside : Outside
outside = record {
  valid_id = λ _. true;
  now = 7;
  member = done master;
  world_source = done "human";
  facilitator_source_check = λ _ _. none;
  play_access = none;
  presentation = done [];
  begun = none;
  selected = none;
  updated = none;
  appended = none;
  committed = none;
  loaded = done riddle;
}

abbrev store : Store
store = record { interactions = ("i1", riddle) ∷ []; events = [] }

abbrev request : Command → ℕ → Request
request c expected = record {
  world_id = "w";
  interaction_id = "i1";
  body = inr (some (pos expected));
  command = c;
}

-- The riddle is presented, adjudicated and cancelled.
abbrev life : List (Outside × Request)
life =
    (outside, request command_present 4)
    ∷ (outside, request command_adjudicate 5)
    ∷ (outside, request command_cancel 6)
    ∷ []

ends_cancelled :
    lookup "i1" (run life store).interactions
    ≡ some (record riddle {
      status = status_cancelled;
      revision = 7;
      presented_at = some 7;
      cancelled_at = some 7;
    })
unfolding lookup insert run handle_lifecycle expected_revision transact authorize change
ends_cancelled = refl

three_events : length (run life store).events ≡ 3
unfolding lookup insert run handle_lifecycle expected_revision transact authorize change
three_events = refl

handle_lifecycle-Refines_example :
    Refines outside
      (request command_present 4)
      store
      (handle_lifecycle outside (request command_present 4) store)
handle_lifecycle-Refines_example =
    handle_lifecycle-Refines outside (request command_present 4) store

handle_lifecycle-stale_example :
    (handle_lifecycle outside (request command_cancel 4) (
      run
        ((outside, request command_adjudicate 5) ∷ [])
        (handle_lifecycle outside (request command_present 4) store).1)).1
    ≡ run
        ((outside, request command_adjudicate 5) ∷ [])
        (handle_lifecycle outside (request command_present 4) store).1
unfolding lookup insert handle_lifecycle expected_revision transact authorize change
handle_lifecycle-stale_example =
    handle_lifecycle-stale outside outside (request command_present 4) (request command_cancel 4)
      (pos 4) ((outside, request command_adjudicate 5) ∷ []) store refl refl refl
      (λ same. absurd (omega (arith, ap (λ s. length s.events) same)))

run-Shape_example : Entries (λ _ row. Shape row) (run life store).interactions
run-Shape_example = run-Shape life store ((refl, refl, refl), tt)

abbrev over : Store
over = record {
  interactions = ("i1", record riddle { status = status_cancelled; cancelled_at = some 6 }) ∷ [];
  events = [];
}

run-final_example :
    lookup "i1" (run life over).interactions
    ≡ some (record riddle { status = status_cancelled; cancelled_at = some 6 })
unfolding lookup
run-final_example =
    run-final life over "i1" (record riddle { status = status_cancelled; cancelled_at = some 6 })
      refl refl

handle_lifecycle-ends_example :
    (is_final (ended 7 riddle).status ≡ true)
    × (lookup "i1"
          (run life (handle_lifecycle outside (cancel_request "w" "i1" 4) store).1).interactions
        ≡ some (ended 7 riddle))
unfolding lookup
handle_lifecycle-ends_example =
    handle_lifecycle-ends outside master "w" "i1" store riddle life
      (record {
        begun = refl;
        member = refl;
        facilitator = refl;
        selected = refl;
        updated = refl;
        appended = refl;
        committed = refl;
      })
      refl refl refl

abbrev attempts : List Call
attempts = take_call "ann" 300 10 ∷ failure_call "bob" 300 11 ∷ clear_call "ann" ∷ []

calls-length_example : length (calls attempts []) < 8192
calls-length_example = calls-length attempts [] (ground arith)

abbrev ann : AuthThrottleEntry
ann = record { count = 119; reset_at = 300; last_seen = 9 }

abbrev taken : ℕ → Attempted
taken now = record { key = "ann"; window = 300; now = now }

none_new : new_keys (taken 10 ∷ taken 11 ∷ []) (("ann", ann) ∷ []) ≡ 0
unfolding new_keys take active_entry lookup insert prune
none_new = refl

admitted-limit_example : admitted "ann" (taken 10 ∷ taken 11 ∷ []) (("ann", ann) ∷ []) + 119 ≤ 120
unfolding lookup
admitted-limit_example =
    admitted-limit "ann" (taken 10 ∷ taken 11 ∷ []) (("ann", ann) ∷ []) ann refl (ground arith)
      (ground arith) (omega (arith, none_new))

blocked-failures_example :
    blocked "ann" 121 20 (failures "ann" ((300, 10) ∷ (300, 11) ∷ []) (("ann", ann) ∷ [])) ≡ true
unfolding lookup
blocked-failures_example =
    blocked-failures "ann" 121 20 ((300, 10) ∷ (300, 11) ∷ []) (("ann", ann) ∷ []) ann refl
      (ground arith) (ground arith) (ground arith)

decode64-encode64_example :
    decode64 (encode64 (0 ∷ 255 ∷ 16 ∷ 131 ∷ [])) ≡ some (0 ∷ 255 ∷ 16 ∷ 131 ∷ [])
decode64-encode64_example = decode64-encode64 (0 ∷ 255 ∷ 16 ∷ 131 ∷ []) (ground arith)

-- Keys that are made of one byte.
abbrev sevens : Argon2
sevens = record { version = 19; id_key = λ _ _ _ _ _ size. replicate size 7 }

length-replicate : (n : ℕ) → length {A = ℕ} (replicate n 7) ≡ n
length-replicate zero = refl
length-replicate (suc n) = omega (arith, length-replicate n)

All-replicate : (n : ℕ) → All (λ b. b < 256) (replicate n 7)
All-replicate zero = tt
All-replicate (suc n) = (omega arith, All-replicate n)

sevens-DerivesKeys : DerivesKeys sevens
sevens-DerivesKeys = record {
  sized_key = λ _ _ _ _ _ k. length-replicate k;
  byte_key = λ _ _ _ _ _ k. All-replicate k;
}

abbrev salt : Bytes
salt = replicate 16 5

decode_password_hash-encode_password_example :
    decode_password_hash sevens
      (encode_password sevens (codes "open sesame") salt current_password_parameters)
    ≡ ok (current_password_parameters, salt, replicate 32 7)
decode_password_hash-encode_password_example =
    decode_password_hash-encode_password sevens sevens-DerivesKeys (codes "open sesame") salt
      current_password_parameters (ground arith) refl (ground arith)

verify_password-hash_password_example :
    (stored : Bytes) × (hash_password sevens (codes "open sesame") (inr salt) 3 ≡ (ok stored, 3))
    × (verify_password sevens (codes "open sesame") stored 3 ≡ (ok true, 3))
    × (password_hash_needs_upgrade sevens stored ≡ false)
verify_password-hash_password_example =
    verify_password-hash_password sevens sevens-DerivesKeys (codes "open sesame") salt 3
      (ground arith) refl (ground arith)

decode_password_hash-Sound_example : Sound (current_password_parameters, salt, replicate 32 7)
decode_password_hash-Sound_example =
    decode_password_hash-Sound sevens
      (encode_password sevens (codes "open sesame") salt current_password_parameters)
      (current_password_parameters, salt, replicate 32 7)
      decode_password_hash-encode_password_example

strength_in_use : has_active_mechanic_dependents mechanics "strength" ≡ true
unfolding program has_active_mechanic_dependents
strength_in_use = refl

has_active_mechanic_dependents-any_example :
    has_active_mechanic_dependents mechanics "strength"
    ≡ any
        (λ (id, d).
          not (id == "strength") && not d.archived && seen "strength" (compiled_dependencies d))
        mechanics
has_active_mechanic_dependents-any_example =
    has_active_mechanic_dependents-any "strength" refl mechanics
      ((λ _. refl), ((λ derived. absurd (ground (arith, derived))), tt))
