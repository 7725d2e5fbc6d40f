-- ===== src/App/Lifecycle/Runs.antt =====
-- Sequences of requests to handleInteractionLifecycle, as the transactions are committed: the rows
-- of the interactions are locked, so that two runs on one row follow each other.
use Prim.Native.Nat.{◌<◌}
use Prim.Native.String.{String}
use mathlib.Core.Bool.{true}
use mathlib.Core.List.{List, [], ◌∷◌}
use mathlib.Core.Logic.{◌⊎◌, inl, inr}
use mathlib.Core.Option.{some, some-injective}
use mathlib.Core.Path.{◌≡◌, refl, subst, sym, ap, ◌∙◌}
use native.Mathlib.Omega.{arith}
use text.Mathlib.TextEquality.{eq_iff}
use gezerah.Base.Int.{ℤ, int_eq}
use gezerah.Base.Map.{lookup, lookup-insert}
use gezerah.Base.Tests.{◌==◌, string_eq, Bool-cases}
use gezerah.App.Lifecycle.{
  InteractionStatus, Interaction, Store, Command, Request, Outside, is_final,
}
use gezerah.App.Lifecycle.Handler.{handle_lifecycle}
use gezerah.App.Lifecycle.Steps.{
  Moves, presents, adjudicates, cancels_draft, cancels_open, cancels_adjudicating, Moved, Effected,
  handle_lifecycle-Refines,
}

-- The store behind a sequence of runs, each with what it meets outside.
unfoldable pub run : List (Outside × Request) → Store → Store
run [] store = store
run ((o, request) ∷ calls) store = run calls (handle_lifecycle o request store).1

-- What every effect keeps, every run keeps.
pub run-keeps :
    (P : Store → Type 0)
    → ((o : Outside) (request : Request) (expected : ℤ) (store store' : Store) (row' : Interaction)
        → Effected o request expected store row' store'
        → P store
        → P store')
    → (calls : List (Outside × Request)) (store : Store) → P store
    → P (run calls store)
unfolding run
run-keeps P keeps [] store h = h
run-keeps P keeps ((o, request) ∷ calls) store h =
    run-keeps P keeps calls (handle_lifecycle o request store).1
      (elim (handle_lifecycle-Refines o request store) [
        | inl (same, _, _) ↦ subst P (sym same) h
        | inr (row', expected, _, effect, _) ↦ keeps o request expected store _ row' effect h
      ])

-- The row at an ID behind an effect.
effect-lookup :
    (o : Outside) (request : Request) (expected : ℤ) (store store' : Store) (row' : Interaction)
    (id : String) (row : Interaction)
    → Effected o request expected store row' store'
    → lookup id store.interactions ≡ some row
    → (lookup id store'.interactions ≡ some row)
      ⊎ ((lookup id store'.interactions ≡ some row') × Moved request.command row row')
effect-lookup o request expected store store' row' id row effect there =
    elim (Bool-cases (request.interaction_id == id)) [
      | inl same ↦
          let one : effect.row ≡ row = some-injective effect.row row (
            sym effect.found
            ∙ subst (λ i. lookup i store.interactions ≡ some row)
                (sym ((eq_iff request.interaction_id id).0 same)) there) in
          inr (
            rw
                (
                  effect.written,
                  lookup-insert request.interaction_id id row' store.interactions,
                  same,
                )
                refl,
            subst (λ r. Moved request.command r row') one effect.moved,
          )
      | inr other ↦ inl (
          rw
            (effect.written, lookup-insert request.interaction_id id row' store.interactions, other)
            there)
    ]

-- No move leaves a final status.
Moves-open : (c : Command) (s t : InteractionStatus) → Moves c s t → is_final s ≡ true → ⊥
Moves-open _ _ _ presents final = cc
Moves-open _ _ _ adjudicates final = cc
Moves-open _ _ _ cancels_draft final = cc
Moves-open _ _ _ cancels_open final = cc
Moves-open _ _ _ cancels_adjudicating final = cc

-- An interaction that is resolved or cancelled keeps its row, whatever requests follow.
pub run-final :
    (calls : List (Outside × Request)) (store : Store) (id : String) (row : Interaction)
    → lookup id store.interactions ≡ some row
    → is_final row.status ≡ true
    → lookup id (run calls store).interactions ≡ some row
run-final calls store id row there final =
    run-keeps (λ s. lookup id s.interactions ≡ some row)
      (λ o request expected s s' row' effect here.
        elim (effect-lookup o request expected s s' row' id row effect here) [
          | inl kept ↦ kept
          | inr (_, moved) ↦
              absurd (Moves-open request.command row.status row'.status moved.0 final)
        ])
      calls store there

-- The row of an interaction behind a sequence of requests: as it was, or at a later revision.
pub run-revision :
    (calls : List (Outside × Request)) (store : Store) (id : String) (row : Interaction)
    → lookup id store.interactions ≡ some row
    → (row' : Interaction) × (lookup id (run calls store).interactions ≡ some row')
      × ((row' ≡ row) ⊎ (row.revision < row'.revision))
run-revision calls store id row there =
    run-keeps
      (λ s.
        (row' : Interaction) × (lookup id s.interactions ≡ some row')
        × ((row' ≡ row) ⊎ (row.revision < row'.revision)))
      (λ o request expected s s' row' effect (row1, here, later).
        elim (effect-lookup o request expected s s' row' id row1 effect here) [
          | inl kept ↦ (row1, kept, later)
          | inr (now, moved) ↦ (
            row',
            now,
            inr (elim later [
              | inl same ↦ omega (arith, moved.1, ap (λ r. r.revision) same)
              | inr above ↦ omega (arith, moved.1, above)
            ]),
          )
        ])
      calls store (row, there, inl refl)
