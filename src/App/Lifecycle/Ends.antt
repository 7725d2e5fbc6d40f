-- ===== src/App/Lifecycle/Ends.antt =====
-- An interaction can always be brought to an end by its facilitator, and stays there.
use Prim.Native.Nat.{ℕ, ◌+◌}
use Prim.Native.String.{String}
use mathlib.Core.Bool.{true, false}
use mathlib.Core.List.{List}
use mathlib.Core.Logic.{inl, inr}
use mathlib.Core.Option.{none, some}
use mathlib.Core.Path.{◌≡◌, refl}
use native.Mathlib.Omega.{arith}
use text.Mathlib.TextEquality.{eq_iff}
use gezerah.Base.Int.{pos, ltb_ℤ, int_eq, beq_ℤ_iff}
use gezerah.Base.Map.{lookup, lookup-insert}
use gezerah.Base.Tests.{string_eq, if◌then◌else◌, Bool-cases}
use gezerah.App.Failures.{Attempt, done, failed, handle_app_error, ◌>>=◌}
use gezerah.App.Lifecycle.{
  status_cancelled, Interaction, Store, Request, Response, answered, rejected, command_cancel,
  Member, Outside, authorize, is_final,
}
use gezerah.App.Lifecycle.Handler.{handle_lifecycle, expected_revision, transact, change}
use gezerah.App.Lifecycle.Runs.{run, run-final}

-- The request to cancel an interaction from a revision.
abbrev pub cancel_request : String → String → ℕ → Request
cancel_request world_id id revision = record {
  world_id = world_id;
  interaction_id = id;
  body = inr (some (pos revision));
  command = command_cancel;
}

-- The transaction meets no failure, and the request is one of the facilitator.
pub record Smooth (o : Outside) (actor : Member) : Type 0 where
  pub begun : o.begun ≡ none
  pub member : o.member ≡ done actor
  pub facilitator : actor.facilitator ≡ true
  pub selected : o.selected ≡ none
  pub updated : o.updated ≡ none
  pub appended : o.appended ≡ none
  pub committed : o.committed ≡ none

pos-nonnegative : (n : ℕ) → ltb_ℤ (pos n) (pos 0) ≡ false
pos-nonnegative n = ground arith

abbrev pub cancelled : ℕ → Interaction → Interaction
cancelled now row = record row {
  status = status_cancelled;
  cancelled_at = some now;
  revision = row.revision + 1;
}

-- The row that a request to cancel leaves of an interaction.
abbrev pub ended : ℕ → Interaction → Interaction
ended now row = if is_final row.status then row else cancelled now row

ended-final : (now : ℕ) (row : Interaction) → is_final (ended now row).status ≡ true
ended-final now row = ground arith

-- The store behind a transaction.
abbrev kept : Store → Attempt (Interaction × Store) → Store
kept store (failed e) = store
kept store (done (row, store')) = store'

-- What is loaded behind the commit does not change the store.
handle_lifecycle-kept :
    (o : Outside) (request : Request) (store : Store)
    → (handle_lifecycle o request store).1
      ≡ kept store (expected_revision o request >>= λ expected. transact o request expected store)
unfolding handle_lifecycle
handle_lifecycle-kept o request store =
    sent (expected_revision o request >>= λ expected. transact o request expected store) o.loaded
  where
    sent :
        (r : Attempt (Interaction × Store)) (l : Attempt Interaction)
        → (elim r as (λ _. Response × Store) [
          | failed e ↦ (rejected (handle_app_error e), store)
          | done (row, store') ↦ elim l [
            | done item ↦ (answered item, store')
            | failed e ↦ (rejected (handle_app_error e), store')
          ]
        ]).1
          ≡ kept store r
    sent (failed e) l = refl
    sent (done (row, store')) (done item) = refl
    sent (done (row, store')) (failed e) = refl

handle_lifecycle-ended :
    (o : Outside) (actor : Member) (world_id id : String) (store : Store) (row : Interaction)
    → Smooth o actor
    → o.valid_id world_id ≡ true
    → o.valid_id id ≡ true
    → lookup id store.interactions ≡ some row
    → lookup id (handle_lifecycle o (cancel_request world_id id row.revision) store).1.interactions
      ≡ some (ended o.now row)
unfolding expected_revision transact authorize change
handle_lifecycle-ended o actor world_id id store row smooth w i found =
    elim (Bool-cases (is_final row.status)) [
      | inl final ↦
          rw
            (
              handle_lifecycle-kept,
              w,
              i,
              pos-nonnegative row.revision,
              smooth.begun,
              smooth.member,
              smooth.facilitator,
              smooth.selected,
              found,
              (beq_ℤ_iff (pos row.revision) (pos row.revision)).1 refl,
              final,
              expected_revision,
              transact,
              authorize,
              change,
            )
            found
      | inr alive ↦
          rw
            (
              handle_lifecycle-kept,
              w,
              i,
              pos-nonnegative row.revision,
              smooth.begun,
              smooth.member,
              smooth.facilitator,
              smooth.selected,
              found,
              (beq_ℤ_iff (pos row.revision) (pos row.revision)).1 refl,
              alive,
              smooth.updated,
              smooth.appended,
              smooth.committed,
              expected_revision,
              transact,
              authorize,
              change,
            )
            (rw (lookup-insert id id (cancelled o.now row) store.interactions)
              (ground (arith, eq_iff id id)))
    ]

-- Where the transaction meets no failure, a facilitator who cancels an interaction from its current
-- revision, by well-formed IDs, brings it to an end: a final interaction is left as it is, any
-- other is cancelled at the next revision, and the row stays so, whatever requests follow.
pub handle_lifecycle-ends :
    (o : Outside) (actor : Member) (world_id id : String) (store : Store) (row : Interaction)
    (calls : List (Outside × Request))
    → Smooth o actor
    → o.valid_id world_id ≡ true
    → o.valid_id id ≡ true
    → lookup id store.interactions ≡ some row
    → (is_final (ended o.now row).status ≡ true)
      × (lookup id
            (run calls
              (handle_lifecycle o (cancel_request world_id id row.revision) store).1).interactions
          ≡ some (ended o.now row))
handle_lifecycle-ends o actor world_id id store row calls smooth w i found =
    let final = ended-final o.now row in
    (
      final,
      run-final calls (handle_lifecycle o (cancel_request world_id id row.revision) store).1 id
          (ended o.now row) (handle_lifecycle-ended o actor world_id id store row smooth w i found)
          final,
    )
