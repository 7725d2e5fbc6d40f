-- ===== src/App/Lifecycle/Steps.antt =====
-- The life of an interaction as a diagram, and what a request to handleInteractionLifecycle does to
-- the rows of its world.
use Prim.Native.Nat.{◌+◌}
use Prim.Native.String.{String}
use mathlib.Core.Bool.{true, false, not, ◌||◌}
use mathlib.Core.List.{[], ◌∷◌, ◌++◌}
use mathlib.Core.Logic.{◌⊎◌, inl, inr}
use mathlib.Core.Option.{Option, none, some}
use mathlib.Core.Path.{◌≡◌, refl, subst, sym, ◌∙◌}
use native.Mathlib.Omega.{arith}
use text.Mathlib.TextEquality.{eq_iff}
use gezerah.Base.Int.{ℤ, pos, int_eq, beq_ℤ_iff}
use gezerah.Base.Map.{lookup, insert}
use gezerah.Base.Tests.{◌==◌, string_eq, if◌then◌else◌, Bool-cases}
use gezerah.App.Failures.{
  StatusError, AppError, handle_app_error, Attempt, done, failed, require, require_that, ◌>>=◌,
  ◌>>◌, >>=-eq-done, done-injective, require_that-eq-done,
}
use gezerah.App.Lifecycle.{
  InteractionStatus, status_draft, status_open, status_adjudicating, status_cancelled, Interaction,
  WorldEvent, Store, Command, command_present, command_adjudicate, command_cancel, command_other,
  agent_facilitator_source, agent_facilitator_label, require_ready_player, Request, Outside,
  Response, answered, rejected, is_open, is_adjudicating, is_cancel, Member, may_cancel,
  invalidates_audience, authorize, require_assigned_player, is_automated_facilitator_source,
  facilitator_required,
}
use gezerah.App.Lifecycle.Handler.{
  one_row, one_row-eq-done, expected_revision, change, transact, handle_lifecycle,
}

-- The diagram: what a command may do to the status of an interaction.
pub data Moves : Command → InteractionStatus → InteractionStatus → Type 0 where
  presents : Moves command_present status_draft status_open
  adjudicates : Moves command_adjudicate status_open status_adjudicating
  cancels_draft : Moves command_cancel status_draft status_cancelled
  cancels_open : Moves command_cancel status_open status_cancelled
  cancels_adjudicating : Moves command_cancel status_adjudicating status_cancelled

pub ruleset moves = (presents, adjudicates, cancels_draft, cancels_open, cancels_adjudicating)

-- One move of a row: along the diagram, to the next revision.
abbrev pub Moved : Command → Interaction → Interaction → Type 0
Moved command row row' =
    Moves command row.status row'.status
    × (row'.revision ≡ row.revision + 1)
    × (row'.facilitator_source ≡ row.facilitator_source)

pub change-Moved :
    (o : Outside) (command : Command) (row row' : Interaction) (event : String)
    → change o command row ≡ done (row', event)
    → Moved command row row'
unfolding change
change-Moved o command row row' event run = grind (arith, moves)

-- The type of the event of each command.
abbrev pub event_name : Command → String
event_name command_present = "interaction-presented"
event_name command_adjudicate = "interaction-adjudicating"
event_name command_cancel = "interaction-cancelled"
event_name (command_other name) = ""

pub change-event_name :
    (o : Outside) (command : Command) (row row' : Interaction) (event : String)
    → change o command row ≡ done (row', event)
    → event ≡ event_name command
unfolding change
change-event_name o command row row' event run = grind arith

-- An interaction is presented only where its validation found nothing.
pub change-presentation :
    (o : Outside) (command : Command) (row row' : Interaction) (event : String)
    → change o command row ≡ done (row', event)
    → command ≡ command_present
    → o.presentation ≡ done []
unfolding change
change-presentation o command row row' event run presented = grind arith

-- A source is the automated facilitator of the world, and the player may pace it: the check of
-- the source finds nothing, and the player is no spectator and has access to the play.
abbrev pub Ready : Outside → Member → String → Type 0
Ready o actor source =
    (o.world_source ≡ done source)
    × (is_automated_facilitator_source source ≡ true)
    × (o.facilitator_source_check source
          (if source == agent_facilitator_source then agent_facilitator_label else "Terra")
        ≡ none)
    × ((actor.role == "spectator") ≡ false)
    × (o.play_access ≡ none)

-- Who may give the command: the facilitator; or a player who may pace the facilitator of the
-- interaction, and cancels it while it is open or adjudicating.
abbrev pub Authorized : Outside → Command → Member → Interaction → Type 0
Authorized o command actor row =
    (actor.facilitator ≡ true)
    ⊎ ((is_cancel command ≡ true)
        × Ready o actor row.facilitator_source
        × ((is_open row.status || is_adjudicating row.status) ≡ true))

may_cancel-true :
    (source : String) (row : Interaction)
    → may_cancel (some source) row ≡ true
    → (source ≡ row.facilitator_source)
      × ((is_open row.status || is_adjudicating row.status) ≡ true)
may_cancel-true source row allowed = ground (arith, eq_iff row.facilitator_source source)

require-eq-done : (e : Option AppError) {u : Unit {0}} → require e ≡ done u → e ≡ none
require-eq-done none run = refl
require-eq-done (some e) run = cc

-- A player who is let pace a facilitator: no spectator, and with access to the play.
require_ready_player-eq-done :
    (o : Outside) (actor : Member) (source label : String) {u : Unit {0}}
    → require_ready_player o actor source label ≡ done u
    → (o.facilitator_source_check source label ≡ none)
      × ((actor.role == "spectator") ≡ false)
      × (o.play_access ≡ none)
unfolding require_ready_player
require_ready_player-eq-done o actor source label run =
    let (_, checked, run) = >>=-eq-done (require (o.facilitator_source_check source label)) _ run in
    let (_, player, run) =
      >>=-eq-done (require_that (not (actor.role == "spectator" || actor.facilitator)) _) _ run in
    let free = require_that-eq-done _ _ player in
    (require-eq-done _ checked, ground (arith, free), require-eq-done _ run)

require_assigned_player-eq-done :
    (o : Outside) (actor : Member) (source : String)
    → require_assigned_player o actor ≡ done source
    → Ready o actor source
unfolding require_assigned_player
require_assigned_player-eq-done o actor source run =
    let (source', known, run) = >>=-eq-done o.world_source _ run in
    let (_, automated, run) =
      >>=-eq-done (require_that (is_automated_facilitator_source source') _) _ run in
    let (_, ready, run) =
      >>=-eq-done
        (require_ready_player o actor source'
          (if source' == agent_facilitator_source then agent_facilitator_label else "Terra"))
        _ run in
    let (checked, player, access) = require_ready_player-eq-done o actor source' _ ready in
    subst (Ready o actor) (done-injective _ _ run)
      (known, require_that-eq-done _ _ automated, checked, player, access)

authorize-player :
    (o : Outside) (command : Command) (actor : Member)
    → actor.facilitator ≡ false
    → authorize o command actor ≡ (
        require_that (is_cancel command) facilitator_required
        >> (require_assigned_player o actor >>= λ assigned. done (some assigned)))
unfolding authorize
authorize-player o command actor other = rw (other, authorize) refl

pub authorize-Authorized :
    (o : Outside) (command : Command) (actor : Member) (row : Interaction) (player : Option String)
    → authorize o command actor ≡ done player
    → may_cancel player row ≡ true
    → Authorized o command actor row
authorize-Authorized o command actor row player run allowed = elim (Bool-cases actor.facilitator) [
  | inl facilitator ↦ inl facilitator
  | inr other ↦
      let (_, cancels, run) =
        >>=-eq-done (require_that (is_cancel command) _) _
          (sym (authorize-player o command actor other) ∙ run) in
      let (source, assigned, run) = >>=-eq-done (require_assigned_player o actor) _ run in
      let allowed' : may_cancel (some source) row ≡ true =
        subst (λ p. may_cancel p row ≡ true) (sym (done-injective _ _ run)) allowed in
      let (of_source, running) = may_cancel-true source row allowed' in
      inr (
        require_that-eq-done _ _ cancels,
        subst (Ready o actor) of_source (require_assigned_player-eq-done o actor source assigned),
        running,
      )
]

-- What a request that goes through makes of the store: the row under the ID moves, from the
-- revision that the request expects, and one event is appended.
pub record Effected (o : Outside) (request : Request) (expected : ℤ) (store : Store)
    (row' : Interaction) (store' : Store) : Type 0 where
  pub row : Interaction
  pub found : lookup request.interaction_id store.interactions ≡ some row
  pub current : pos row.revision ≡ expected
  pub changed : (event_type : String) × (change o request.command row ≡ done (row', event_type))
  pub moved : Moved request.command row row'
  pub written : store'.interactions ≡ insert request.interaction_id row' store.interactions
  pub actor : Member
  pub known : o.member ≡ done actor
  pub authorized : Authorized o request.command actor row
  pub event : WorldEvent
  pub appended : store'.events ≡ store.events ++ event ∷ []
  pub by_actor : event.actor_membership_id ≡ actor.id
  pub named : event.event_type ≡ event_name request.command
  pub presentable : request.command ≡ command_present → o.presentation ≡ done []
  pub about : event.interaction_id ≡ request.interaction_id
  pub audience :
      event.invalidates_interaction_audience ≡ invalidates_audience request.command row.status

pub transact-Effected :
    (o : Outside) (request : Request) (expected : ℤ) (store : Store) (row' : Interaction)
    (store' : Store)
    → transact o request expected store ≡ done (row', store')
    → Effected o request expected store row' store'
unfolding transact
transact-Effected o request expected store row' store' run =
    let (_, begun, run) = >>=-eq-done (require o.begun) _ run in
    let (actor, known, run) = >>=-eq-done o.member _ run in
    let (player, authorized, run) = >>=-eq-done (authorize o request.command actor) _ run in
    let (_, selected, run) = >>=-eq-done (require o.selected) _ run in
    let (row, found, run) =
      >>=-eq-done (one_row (lookup request.interaction_id store.interactions)) _ run in
    let (_, allowed, run) = >>=-eq-done (require_that (may_cancel player row) _) _ run in
    let (_, current, run) = >>=-eq-done (require_that (pos row.revision == expected) _) _ run in
    let ((row2, event_type), changed, run) = >>=-eq-done (change o request.command row) _ run in
    let (_, appended, run) = >>=-eq-done (require o.appended) _ run in
    let (_, committed, run) = >>=-eq-done (require o.committed) _ run in
    subst (λ (written, after). Effected o request expected store written after)
      (done-injective _ _ run)
      (record {
        row = row;
        found = one_row-eq-done _ row found;
        current = (beq_ℤ_iff (pos row.revision) expected).0 (require_that-eq-done _ _ current);
        changed = (event_type, changed);
        moved = change-Moved o request.command row row2 event_type changed;
        written = refl;
        actor = actor;
        known = known;
        authorized =
            authorize-Authorized o request.command actor row player authorized
              (require_that-eq-done _ _ allowed);
        event = _;
        appended = refl;
        by_actor = refl;
        named = change-event_name o request.command row row2 event_type changed;
        presentable = change-presentation o request.command row row2 event_type changed;
        about = refl;
        audience = refl;
      })

-- The request has well-formed IDs, and expects the revision.
abbrev pub Expects : Outside → Request → ℤ → Type 0
Expects o request expected =
    (o.valid_id request.world_id ≡ true)
    × (o.valid_id request.interaction_id ≡ true)
    × (request.body ≡ inr (some expected))

pub expected_revision-eq-done :
    (o : Outside) (request : Request) (expected : ℤ)
    → expected_revision o request ≡ done expected
    → Expects o request expected
unfolding expected_revision
expected_revision-eq-done o request expected run = grind arith

-- What a run answers and leaves: a refusal and the store as it was; or the changed store, and the
-- item that is loaded behind it or the error of loading it.
abbrev pub Refines : Outside → Request → Store → Response × Store → Type 0
Refines o request store (response, store') =
    ((store' ≡ store) × (e : StatusError) × (response ≡ rejected e))
    ⊎ ((row' : Interaction) × (expected : ℤ) × Expects o request expected
        × Effected o request expected store row' store'
        × (((item : Interaction) × (o.loaded ≡ done item) × (response ≡ answered item))
            ⊎ ((e : AppError) × (o.loaded ≡ failed e)
                × (response ≡ rejected (handle_app_error e)))))

-- A run of handleInteractionLifecycle either refuses the request and leaves the store as it was, or
-- the IDs of the request are well formed, and it moves the row along the diagram, from the revision
-- that the request expects, for an actor who is the facilitator, or a player with access to the
-- play, no spectator, who cancels an interaction of the automated facilitator of the world; it
-- appends the event of the command; and the client is sent the item that is loaded behind the
-- commit, or the error of loading it.
pub handle_lifecycle-Refines :
    (o : Outside) (request : Request) (store : Store)
    → Refines o request store (handle_lifecycle o request store)
unfolding handle_lifecycle
handle_lifecycle-Refines o request store = checked (expected_revision o request) refl
  where
    loaded :
        (row' : Interaction) (store' : Store) (expected : ℤ) (l : Attempt Interaction)
        → o.loaded ≡ l
        → Expects o request expected
        → Effected o request expected store row' store'
        → Refines o request store (elim l [
          | done item ↦ (answered item, store')
          | failed e ↦ (rejected (handle_app_error e), store')
        ])
    loaded row' store' expected (done item) same body effect =
        inr (row', expected, body, effect, inl (item, same, refl))
    loaded row' store' expected (failed e) same body effect =
        inr (row', expected, body, effect, inr (e, same, refl))

    transacted :
        (expected : ℤ) (r : Attempt (Interaction × Store))
        → transact o request expected store ≡ r
        → Expects o request expected
        → Refines o request store (elim r [
          | failed e ↦ (rejected (handle_app_error e), store)
          | done (row, store') ↦ elim o.loaded [
            | done item ↦ (answered item, store')
            | failed e ↦ (rejected (handle_app_error e), store')
          ]
        ])
    transacted expected (failed e) same body = inl (refl, handle_app_error e, refl)
    transacted expected (done (row', store')) same body =
        loaded row' store' expected o.loaded refl body
          (transact-Effected o request expected store row' store' same)

    checked :
        (r : Attempt ℤ)
        → expected_revision o request ≡ r
        → Refines o request store (handle_lifecycle o request store)
    checked (failed e) same = rw (same, handle_lifecycle) (inl (refl, handle_app_error e, refl))
    checked (done expected) same =
        rw (same, handle_lifecycle)
          (transacted expected (transact o request expected store) refl
            (expected_revision-eq-done o request expected same))
