-- ===== src/App/Lifecycle.antt =====
-- internal/app/interactions_core.go: the handlers that present, adjudicate and cancel an
-- interaction. The tables of one world are a store; a transaction that is not committed is rolled
-- back, so that it leaves the store as it was.
pub mod Handler
pub mod Steps
pub mod Runs
pub mod Locking
pub mod Shape
pub mod Ends
use Prim.Native.Nat.{ℕ, ◌+◌}
use Prim.Native.String.{String, ◌++◌ as join}
use mathlib.Core.Bool.{Bool, true, false, not, ◌&&◌, ◌||◌}
use mathlib.Core.List.{List, [], ◌∷◌, ◌++◌}
use mathlib.Core.Logic.{◌⊎◌, inl, inr}
use mathlib.Core.Path.{◌≡◌}
use mathlib.Core.Option.{Option, none, some}
use gezerah.Base.Int.{ℤ, pos, negsuc, ltb_ℤ, int_eq}
use gezerah.Base.Map.{Map, lookup, insert}
use gezerah.Base.Tests.{◌==◌, string_eq, if◌then◌else◌}
use gezerah.Base.Text.{show_ℕ}
use gezerah.App.Failures.{
  StatusError, plain_status, AppError, status_error, no_rows, other_error, handle_app_error,
  Attempt, done, failed, refused, require, require_that, ◌>>=◌, ◌>>◌,
}

-- The values of interactions.status that its constraint admits.
pub data InteractionStatus : Type 0 where
  status_draft status_open status_adjudicating status_resolved status_cancelled : InteractionStatus

abbrev pub is_draft : InteractionStatus → Bool
is_draft status_draft = true
is_draft _ = false

abbrev pub is_open : InteractionStatus → Bool
is_open status_open = true
is_open _ = false

abbrev pub is_adjudicating : InteractionStatus → Bool
is_adjudicating status_adjudicating = true
is_adjudicating _ = false

abbrev pub is_final : InteractionStatus → Bool
is_final status_resolved = true
is_final status_cancelled = true
is_final _ = false

-- The columns of a row of interactions that the handlers read or write. A revision is not
-- negative, by a constraint of the table; a time is a number.
pub record Interaction : Type 0 where
  pub status : InteractionStatus
  pub revision : ℕ
  pub facilitator_source : String
  pub presented_at : Option ℕ
  pub resolved_at : Option ℕ
  pub cancelled_at : Option ℕ

-- A row of world_events.
pub record WorldEvent : Type 0 where
  pub event_type : String
  pub actor_membership_id : String
  pub interaction_id : String
  pub invalidates_interaction_audience : Bool

-- The rows of one world: its interactions by ID, and its events, the oldest first.
pub record Store : Type 0 where
  pub interactions : Map Interaction
  pub events : List WorldEvent

-- The last argument of handleInteractionLifecycle.
pub data Command : Type 0 where
  command_present command_adjudicate command_cancel : Command
  command_other : String → Command

abbrev pub is_cancel : Command → Bool
is_cancel command_cancel = true
is_cancel _ = false

-- authorizedWorldMember, as far as the handlers read it.
pub record Member : Type 0 where
  pub id : String
  pub role : String
  pub facilitator : Bool

-- The body of a request: the error of decodeJSON, or expected_revision, which may be missing.
pub record Request : Type 0 where
  pub world_id : String
  pub interaction_id : String
  pub body : String ⊎ Option ℤ
  pub command : Command

-- What a run of a handler meets outside: the pattern of an ID, the clock, the answers of the
-- queries on other tables, and the failures of the database at each statement.
pub record Outside : Type 0 where
  pub valid_id : String → Bool
  pub now : ℕ
  pub member : Attempt Member  -- lockInteractionWorldMember
  pub world_source : Attempt String  -- worlds.facilitator_source
  pub facilitator_source_check : String → String → Option AppError  -- requireFacilitatorSource
  pub play_access : Option AppError  -- requireInteractionPlayAccess
  pub presentation : Attempt (Map String)  -- validateStoredInteractionForPresentation
  pub begun : Option AppError
  pub selected : Option AppError
  pub updated : Option AppError
  pub appended : Option AppError
  pub committed : Option AppError
  pub loaded : Attempt Interaction  -- loadInteractionResponseSnapshot

-- What the client is sent.
pub data Response : Type 0 where
  answered : Interaction → Response
  rejected : StatusError → Response

abbrev pub terra_facilitator_source : String
terra_facilitator_source = "terra"

abbrev pub agent_facilitator_source : String
agent_facilitator_source = "agent"

abbrev pub agent_facilitator_label : String
agent_facilitator_label = "the agent"

-- isAutomatedFacilitatorSource
abbrev pub is_automated_facilitator_source : String → Bool
is_automated_facilitator_source source =
    source == terra_facilitator_source || source == agent_facilitator_source

-- automatedCurrentPlayerCanCancelInteraction
abbrev pub automated_current_player_can_cancel : String → String → InteractionStatus → Bool
automated_current_player_can_cancel assigned source status =
    is_automated_facilitator_source assigned
    && source == assigned
    && (is_open status || is_adjudicating status)

-- interactionLifecycleInvalidatesAudience
abbrev pub invalidates_audience : Command → InteractionStatus → Bool
invalidates_audience command_adjudicate prior = is_open prior
invalidates_audience command_cancel prior = is_open prior || is_adjudicating prior
invalidates_audience _ prior = false

-- facilitatorRequired
abbrev pub facilitator_required : AppError
facilitator_required =
    status_error (plain_status 403 "facilitator_required" "facilitator authority is required")

-- interactionLifecycleConflict
abbrev pub lifecycle_conflict : String → AppError
lifecycle_conflict message =
    status_error (plain_status 409 "interaction_lifecycle_conflict" message)

-- fmt.Sprint of an integer
abbrev show_ℤ : ℤ → String
show_ℤ (pos n) = show_ℕ n
show_ℤ (negsuc n) = join "-" (show_ℕ (n + 1))

-- interactionConflict
abbrev pub revision_conflict : ℤ → ℕ → AppError
revision_conflict expected actual = status_error (record {
  status = 409;
  code = "revision_conflict";
  message = "interaction changed since it was loaded";
  fields = ("expected_revision", show_ℤ expected) ∷ ("actual_revision", show_ℕ actual) ∷ [];
})

-- requireAutomatedReadyCurrentPlayer
unfoldable pub require_ready_player : Outside → Member → String → String → Attempt (Unit {0})
require_ready_player o member source label = do
  require (o.facilitator_source_check source label)
  require_that (not (member.role == "spectator" || member.facilitator)) (
      status_error
        (plain_status 403 "player_required" (join "only a ready current player may pace " label)))
  require o.play_access

-- requireAssignedAutomatedReadyCurrentPlayer
unfoldable pub require_assigned_player : Outside → Member → Attempt String
unfolding require_ready_player
require_assigned_player o member = do
  source ← o.world_source
  require_that (is_automated_facilitator_source source) facilitator_required
  require_ready_player o member source
      (if source == agent_facilitator_source then agent_facilitator_label else "Terra")
  done source

-- The members that may go on: a facilitator, or a player who cancels, with the automated source
-- that is assigned to the world.
unfoldable pub authorize : Outside → Command → Member → Attempt (Option String)
unfolding require_assigned_player
authorize o command actor = if actor.facilitator then done none else do
  require_that (is_cancel command) facilitator_required
  assigned ← require_assigned_player o actor
  done (some assigned)

-- `currentPlayerCancellation && !automatedCurrentPlayerCanCancelInteraction(…)`
abbrev pub may_cancel : Option String → Interaction → Bool
may_cancel none row = true
may_cancel (some assigned) row =
    automated_current_player_can_cancel assigned row.facilitator_source row.status
