-- ===== src/App/Lifecycle/Locking.antt =====
-- What the expected revision of a request is for: two requests that were made on the same view of
-- an interaction do not both take effect.
use Prim.Native.Nat.{◌+◌, ◌<◌}
use mathlib.Core.List.{List}
use mathlib.Core.Logic.{◌≢◌, inl, inr}
use mathlib.Core.Option.{some, some-injective}
use mathlib.Core.Path.{◌≡◌, subst, sym, ap, ◌∙◌}
use native.Mathlib.Omega.{arith}
use text.Mathlib.TextEquality.{eq_iff}
use gezerah.Base.Int.{ℤ, pos_part}
use gezerah.Base.Map.{lookup, lookup-insert}
use gezerah.Base.Tests.{string_eq}
use gezerah.App.Lifecycle.{Interaction, Store, Request, Outside}
use gezerah.App.Lifecycle.Handler.{handle_lifecycle}
use gezerah.App.Lifecycle.Steps.{Effected, handle_lifecycle-Refines}
use gezerah.App.Lifecycle.Runs.{run, run-revision}

-- Behind an effect and further requests, the revision is past the expected one.
effect-past :
    (o : Outside) (request : Request) (expected : ℤ) (store store' : Store) (row' : Interaction)
    (calls : List (Outside × Request))
    → Effected o request expected store row' store'
    → (now : Interaction) × (lookup request.interaction_id (run calls store').interactions
        ≡ some now)
      × (pos_part expected < now.revision)
effect-past o request expected store store' row' calls effect =
    let there : lookup request.interaction_id store'.interactions ≡ some row' =
      rw (effect.written) (
        ground (
          arith,
          lookup-insert request.interaction_id request.interaction_id row' store.interactions,
          eq_iff request.interaction_id request.interaction_id,
        )) in
    let (now, found, later) = run-revision calls store' request.interaction_id row' there in
    let start : row'.revision ≡ pos_part expected + 1 =
      omega (arith, effect.moved.1, ap pos_part effect.current) in
    (
      now,
      found,
      elim later [
        | inl same ↦ omega (arith, start, ap (λ r. r.revision) same)
        | inr above ↦ omega (arith, start, above)
      ],
    )

-- Of two requests on one interaction that expect the same revision, the second leaves the store as
-- it is when the first has changed it, whatever requests stand between them.
pub handle_lifecycle-stale :
    (o o' : Outside) (first second : Request) (expected : ℤ) (calls : List (Outside × Request))
    (store : Store)
    → first.interaction_id ≡ second.interaction_id
    → first.body ≡ inr (some expected)
    → second.body ≡ inr (some expected)
    → (handle_lifecycle o first store).1 ≢ store
    → (handle_lifecycle o' second (run calls (handle_lifecycle o first store).1)).1
      ≡ run calls (handle_lifecycle o first store).1
handle_lifecycle-stale o o' first second expected calls store one body body' changed =
    elim (handle_lifecycle-Refines o first store) [
      | inl (same, _, _) ↦ absurd (changed same)
      | inr (row', e, body₁, effect, _) ↦
          elim (handle_lifecycle-Refines o' second (run calls (handle_lifecycle o first store).1)) [
            | inl (same, _, _) ↦ same
            | inr (_, e', body₂, effect', _) ↦
                let (now, found, past) = effect-past o first e store _ row' calls effect in
                let same_expected : e ≡ e' = cc in
                let same_row : now ≡ effect'.row = some-injective now effect'.row (
                  sym found
                  ∙ subst
                      (λ i.
                        lookup i (run calls (handle_lifecycle o first store).1).interactions
                        ≡ some effect'.row)
                      (sym one) effect'.found) in
                absurd (
                  omega (
                    arith,
                    past,
                    ap (λ r. r.revision) same_row,
                    ap pos_part effect'.current,
                    ap pos_part same_expected,
                  ))
          ]
    ]
