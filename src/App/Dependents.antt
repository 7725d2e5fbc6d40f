-- ===== src/App/Dependents.antt =====
-- internal/app/mechanics.go: the search for mechanics that still refer to one that is archived, and
-- its agreement with the dependencies that CompileMechanicGraph of internal/rules collects.
use mathlib.Core.Bool.{Bool, true, false, not, ◌&&◌, ◌||◌}
use mathlib.Core.List.{List, [], ◌∷◌}
use mathlib.Core.Logic.{inl, inr}
use mathlib.Core.Option.{none, some}
use mathlib.Core.Path.{◌≡◌, refl, sym, ◌∙◌}
use native.Mathlib.Omega.{arith}
use text.Mathlib.TextEquality.{eq_iff}
use gezerah.Base.Lists.{All, any}
use gezerah.Base.Map.{Entries}
use gezerah.Base.Sort.{sort_texts, All-sort_texts, All-sort_texts_of}
use gezerah.Base.Tests.{◌==◌, string_eq, if◌then◌else◌, Bool-cases, Option-cases}
use gezerah.Types.{
  RulesId, valid, MechanicDefinition, Expression, node, Operands, nil, cons, ExpressionOperation,
  op_mechanic_reference,
}
use gezerah.State.{Definitions, is_derived}
use gezerah.Statuses.{seen}
use gezerah.Graph.Infer.{collect, collect_operands, add_id}
use gezerah.Graph.Compile.{distinct, sorted_set, compiled_dependencies, derived_expression}

abbrev is_reference : ExpressionOperation → Bool
is_reference op_mechanic_reference = true
is_reference _ = false

-- expressionReferencesMechanic
unfoldable mutual
  pub expression_references_mechanic : Expression → RulesId → Bool
  expression_references_mechanic (node op literal id operands) target =
      let below = operands_reference_mechanic operands target in
      if is_reference op && id == target then true else below

  pub operands_reference_mechanic : Operands → RulesId → Bool
  operands_reference_mechanic nil target = false
  operands_reference_mechanic (cons e es) target =
      let rest = operands_reference_mechanic es target in
      if expression_references_mechanic e target then true else rest

-- hasActiveMechanicDependents
unfoldable pub has_active_mechanic_dependents : Definitions → RulesId → Bool
unfolding expression_references_mechanic
has_active_mechanic_dependents [] target = false
has_active_mechanic_dependents ((id, d) ∷ mechanics) target =
    let rest = has_active_mechanic_dependents mechanics target in
    elim d.expression [
      | none ↦ rest
      | some e ↦
          if id == target || d.archived
          then rest
          else if expression_references_mechanic e target
          then true
          else rest
    ]

module _ (target : RulesId) (named : valid target ≡ true) where
  -- What one node adds to the set.
  seen-node :
      (op : ExpressionOperation) (id : RulesId) (found : List RulesId)
      → seen target (elim op [
        | op_mechanic_reference ↦ if valid id then add_id id found else found
        | _ ↦ found
      ])
        ≡ ((is_reference op && id == target) || seen target found)
  unfolding seen
  seen-node op_mechanic_reference id found = ground (arith, named, eq_iff id target)
  seen-node _ id found = refl

  mutual
    unfolding collect expression_references_mechanic

    seen-collect :
        (e : Expression) (found : List RulesId)
        → seen target (collect e found)
          ≡ (expression_references_mechanic e target || seen target found)
    seen-collect (node op literal id operands) found = ground (
      arith,
      seen-node op id found,
      seen-collect_operands operands (elim op [
        | op_mechanic_reference ↦ if valid id then add_id id found else found
        | _ ↦ found
      ]),
    )

    seen-collect_operands :
        (es : Operands) (found : List RulesId)
        → seen target (collect_operands es found)
          ≡ (operands_reference_mechanic es target || seen target found)
    seen-collect_operands nil found = refl
    seen-collect_operands (cons e es) found =
        ground (arith, seen-collect_operands es (collect e found), seen-collect e found)

  -- A set and its sorted form hold the same IDs.
  unseen-All :
      (ids : List RulesId) → seen target ids ≡ false → All (λ id. (id == target) ≡ false) ids
  unfolding seen
  unseen-All [] h = tt
  unseen-All (id ∷ ids) h = (ground (arith, h), unseen-All ids (ground (arith, h)))

  All-unseen :
      (ids : List RulesId) → All (λ id. (id == target) ≡ false) ids → seen target ids ≡ false
  unfolding seen
  All-unseen [] h = refl
  All-unseen (id ∷ ids) h = ground (arith, h.0, All-unseen ids h.1)

  seen-distinct : (ids : List RulesId) → seen target (distinct ids) ≡ seen target ids
  unfolding distinct seen
  seen-distinct [] = refl
  seen-distinct (id ∷ ids) = ground (arith, seen-distinct ids, eq_iff id target)

  seen-sort_texts : (ids : List RulesId) → seen target (sort_texts ids) ≡ seen target ids
  seen-sort_texts ids = elim (Bool-cases (seen target ids)) [
    | inl there ↦ elim (Bool-cases (seen target (sort_texts ids))) [
      | inl kept ↦ kept ∙ sym there
      | inr lost ↦ absurd (
          ground (
            arith,
            there,
            All-unseen ids (
                All-sort_texts_of (λ id. (id == target) ≡ false) ids
                  (unseen-All (sort_texts ids) lost)),
          ))
    ]
    | inr absent ↦
        All-unseen (sort_texts ids)
          (All-sort_texts (λ id. (id == target) ≡ false) ids (unseen-All ids absent))
        ∙ sym absent
  ]

  -- The expression of a mechanic refers to the target.
  abbrev refers : MechanicDefinition → Bool
  refers d = elim d.expression [ none ↦ false | some e ↦ expression_references_mechanic e target ]

  seen-compiled_dependencies :
      (d : MechanicDefinition)
      → (is_derived d.source_kind ≡ false → d.expression ≡ none)
      → seen target (compiled_dependencies d) ≡ refers d
  unfolding compiled_dependencies sorted_set seen
  seen-compiled_dependencies d derived = elim (Option-cases d.expression) [
    | inl missing ↦ ground (arith, missing)
    | inr (e, there) ↦ elim (Bool-cases (is_derived d.source_kind)) [
      | inl own ↦
          rw (own, there, compiled_dependencies, derived_expression)
            (seen-sort_texts (distinct (collect e []))
              ∙ (seen-distinct (collect e []) ∙ ground (arith, seen-collect e [])))
      | inr foreign ↦ absurd (ground (arith, there, derived foreign))
    ]
  ]

  -- Where only derived mechanics have an expression, and the target has an ID, the search finds a
  -- dependent exactly when another mechanic that is not archived has the target among the
  -- dependencies that CompileMechanicGraph collects for it.
  pub has_active_mechanic_dependents-any :
      (mechanics : Definitions)
      → Entries (λ _ d. is_derived d.source_kind ≡ false → d.expression ≡ none) mechanics
      → has_active_mechanic_dependents mechanics target
        ≡ any
            (λ (id, d).
              not (id == target) && not d.archived && seen target (compiled_dependencies d))
            mechanics
  unfolding has_active_mechanic_dependents compiled_dependencies sorted_set
  has_active_mechanic_dependents-any [] derived = refl
  has_active_mechanic_dependents-any ((id, d) ∷ mechanics) derived = ground (
    arith,
    seen-compiled_dependencies d derived.0,
    has_active_mechanic_dependents-any mechanics derived.1,
  )
