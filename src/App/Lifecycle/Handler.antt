-- ===== src/App/Lifecycle/Handler.antt =====
-- handleInteractionLifecycle: the checks of the request, the transaction and the answer.
use Prim.Native.Nat.{◌+◌}
use Prim.Native.String.{String}
use mathlib.Core.Bool.{Bool, true, false, not, ◌||◌}
use mathlib.Core.List.{[], ◌∷◌, ◌++◌}
use mathlib.Core.Logic.{inl, inr}
use mathlib.Core.Path.{◌≡◌}
use mathlib.Core.Option.{Option, none, some}
use gezerah.Base.Int.{ℤ, pos, ltb_ℤ, int_eq}
use gezerah.Base.Map.{Map, lookup, insert}
use gezerah.Base.Tests.{◌==◌, string_eq, if◌then◌else◌}
use gezerah.App.Failures.{
  status_error, no_rows, other_error, handle_app_error, Attempt, done, failed, refused, require,
  require_that, ◌>>=◌, ◌>>◌,
}
use gezerah.App.Lifecycle.{
  is_draft, is_open, is_final, Interaction, Store, Command, Request, Outside, Response,
  invalidates_audience, lifecycle_conflict, revision_conflict, authorize, may_cancel, command_other,
  answered, rejected, status_open, status_adjudicating, status_cancelled, command_present,
  command_adjudicate, command_cancel,
}

abbrev no_fields {ℓ} : {V : Type ℓ} → Map V → Bool
no_fields [] = true
no_fields _ = false

-- The switch on the command: the updated row and the type of the event.
unfoldable pub change : Outside → Command → Interaction → Attempt (Interaction × String)
change o command_present row = do
  require_that (is_draft row.status)
      (lifecycle_conflict "only a draft interaction can be presented")
  fields ← o.presentation
  require_that (no_fields fields) (
      status_error (record {
        status = 422;
        code = "validation_failed";
        message = "interaction cannot be presented";
        fields = fields;
      }))
  require o.updated
  done (
    record row { status = status_open; presented_at = some o.now; revision = row.revision + 1 },
    "interaction-presented",
  )
change o command_adjudicate row = do
  require_that (is_open row.status)
      (lifecycle_conflict "only an open interaction can begin adjudication")
  require o.updated
  done (
    record row { status = status_adjudicating; revision = row.revision + 1 },
    "interaction-adjudicating",
  )
change o command_cancel row = do
  require_that (not (is_final row.status))
      (lifecycle_conflict "final interactions cannot be cancelled")
  require o.updated
  done (
    record row {
      status = status_cancelled;
      cancelled_at = some o.now;
      revision = row.revision + 1;
    },
    "interaction-cancelled",
  )
change o (command_other name) row = failed other_error

-- QueryRow(…).Scan
abbrev pub one_row {ℓ} : {A : Type ℓ} → Option A → Attempt A
one_row none = failed no_rows
one_row (some row) = done row

pub one_row-eq-done {ℓ} : {A : Type ℓ} (o : Option A) (a : A) → one_row o ≡ done a → o ≡ some a
one_row-eq-done none a run = cc
one_row-eq-done (some b) a run = cc

-- The statements inside the transaction, up to its commit.
unfoldable pub transact : Outside → Request → ℤ → Store → Attempt (Interaction × Store)
unfolding authorize change
transact o request expected store = do
  require o.begun
  actor ← o.member
  player ← authorize o request.command actor
  require o.selected
  row ← one_row (lookup request.interaction_id store.interactions)
  require_that (may_cancel player row) (
      lifecycle_conflict
        "current players may cancel only an open or adjudicating Interaction of the current Terra or Agent facilitator")
  require_that (pos row.revision == expected) (revision_conflict expected row.revision)
  (row', event_type) ← change o request.command row
  require o.appended
  require o.committed
  done (
    row',
    record {
      interactions = insert request.interaction_id row' store.interactions;
      events =
          store.events
          ++ record {
            event_type = event_type;
            actor_membership_id = actor.id;
            interaction_id = request.interaction_id;
            invalidates_interaction_audience = invalidates_audience request.command row.status;
          }
            ∷ [];
    },
  )

-- The checks of the request in front of the transaction.
unfoldable pub expected_revision : Outside → Request → Attempt ℤ
expected_revision o request =
    if not (o.valid_id request.world_id) || not (o.valid_id request.interaction_id)
    then refused 400 "invalid_id" "resource ID is malformed"
    else elim request.body [
      | inl message ↦ refused 400 "invalid_json" message
      | inr none ↦ missing
      | inr (some expected) ↦ if ltb_ℤ expected (pos 0) then missing else done expected
    ]
  where
    missing : Attempt ℤ
    missing = failed (
        status_error (record {
          status = 422;
          code = "validation_failed";
          message = "expected_revision is required";
          fields = ("expected_revision", "a non-negative expected revision is required") ∷ [];
        }))

-- handleInteractionLifecycle. The item that is sent is loaded again behind the commit, which may
-- fail on its own; other requests may have changed it by then.
unfoldable pub handle_lifecycle : Outside → Request → Store → Response × Store
unfolding expected_revision transact
handle_lifecycle o request store =
    elim (expected_revision o request >>= λ expected. transact o request expected store) [
      | failed e ↦ (rejected (handle_app_error e), store)
      | done (row, store') ↦ elim o.loaded [
        | done item ↦ (answered item, store')
        | failed e ↦ (rejected (handle_app_error e), store')
      ]
    ]
