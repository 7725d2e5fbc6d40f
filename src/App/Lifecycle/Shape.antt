-- ===== src/App/Lifecycle/Shape.antt =====
-- The constraint interactions_lifecycle_shape of the table of the interactions.
use Prim.Native.String.{String}
use mathlib.Core.List.{List}
use mathlib.Core.Logic.{◌≢◌}
use mathlib.Core.Option.{none}
use mathlib.Core.Path.{◌≡◌}
use native.Mathlib.Omega.{arith}
use gezerah.Base.Map.{Entries, Entries-insert, Entries-lookup}
use gezerah.App.Failures.{done}
use gezerah.App.Lifecycle.{
  status_draft, status_open, status_adjudicating, status_resolved, status_cancelled, Interaction,
  Store, Command, Request, Outside,
}
use gezerah.App.Lifecycle.Handler.{change}
use gezerah.App.Lifecycle.Runs.{run, run-keeps}

-- The times that a row of each status has.
abbrev pub Shape : Interaction → Type 0
Shape row = elim row.status [
  | status_draft ↦ (row.presented_at ≡ none) × (row.resolved_at ≡ none) × (row.cancelled_at ≡ none)
  | status_open ↦ (row.presented_at ≢ none) × (row.resolved_at ≡ none) × (row.cancelled_at ≡ none)
  | status_adjudicating ↦
      (row.presented_at ≢ none) × (row.resolved_at ≡ none) × (row.cancelled_at ≡ none)
  | status_resolved ↦
      (row.presented_at ≢ none) × (row.resolved_at ≢ none) × (row.cancelled_at ≡ none)
  | status_cancelled ↦ (row.resolved_at ≡ none) × (row.cancelled_at ≢ none)
]

change-Shape :
    (o : Outside) (command : Command) (row row' : Interaction) (event : String)
    → change o command row ≡ done (row', event)
    → Shape row
    → Shape row'
unfolding change
change-Shape o command row row' event changed shape = grind arith

-- Where every interaction of the world meets interactions_lifecycle_shape, so does every one
-- behind any sequence of requests: no update of the handlers breaks that constraint.
pub run-Shape :
    (calls : List (Outside × Request)) (store : Store)
    → Entries (λ _ row. Shape row) store.interactions
    → Entries (λ _ row. Shape row) (run calls store).interactions
run-Shape calls store shapes =
    run-keeps (λ s. Entries (λ _ row. Shape row) s.interactions)
      (λ o request expected s s' row' effect held. rw (effect.written) (
        Entries-insert (λ _ row. Shape row) request.interaction_id row' s.interactions
          (change-Shape o request.command effect.row row' effect.changed.0 effect.changed.1 (
            Entries-lookup (λ _ row. Shape row) request.interaction_id s.interactions held
              effect.found))
          held))
      calls store shapes
