-- ===== src/Evaluation/Kinds/Checked.antt =====
-- What ValidateMechanicGraph and ValidateInputOverrideRecord ensure of the kinds of mechanics.
use mathlib.Core.Bool.{true, not}
use mathlib.Core.List.{List, [], ◌∷◌, ◌++◌}
use mathlib.Core.Logic.{inl, inr}
use mathlib.Core.Option.{Option, none, some, map, some-injective}
use mathlib.Core.Path.{◌≡◌, refl, sym, subst, ◌∙◌}
use native.Mathlib.Omega.{arith}
use gezerah.Base.Tests.{◌==◌, string_eq, Bool-cases, Option-cases}
use gezerah.Base.Lists.{All, append-eq-nil}
use gezerah.Base.Map.{lookup, keys}
use gezerah.Base.Sort.{sort_texts, All-sort_texts_of}
use gezerah.Base.Text.{keyed, dotted}
use gezerah.Errors.{ValidationErrors, fault_if, fault_if-eq-nil}
use gezerah.Types.{RulesId, kind_eq, kind_beq_iff, MechanicValue, MechanicDefinition, Expression}
use gezerah.Values.{valid_shape, validate_value}
use gezerah.Definitions.{validate_definition, nest, nest-eq-nil}
use gezerah.State.{Definitions}
use gezerah.Graph.Infer.{infer}
use gezerah.Graph.Compile.{
  validate_graph, validate_mechanic, validate_mechanics, check_inferred, derived_expression,
}
use gezerah.Evaluation.Complete.{All-keys}
use gezerah.Evaluation.Kinds.{Shaped}

pub validate_value-Shaped :
    (d : MechanicDefinition) (v : MechanicValue) → validate_value d v ≡ [] → Shaped d.value_kind v
unfolding validate_value
validate_value-Shaped d v clean = elim (Bool-cases (v.kind == d.value_kind)) [
  | inl same ↦ elim (Bool-cases (valid_shape v)) [
    | inl shaped ↦ ((kind_beq_iff v.kind d.value_kind).0 same, shaped)
    | inr bad ↦ absurd (ground (arith, clean, same, bad))
  ]
  | inr other ↦ absurd (ground (arith, clean, other))
]

-- A mechanic that the loop of ValidateMechanicGraph accepts at an ID.
pub record CheckedMechanic (definitions : Definitions) (id : RulesId) (d : MechanicDefinition)
    : Type 0 where
  pub keyed_by : (d.id == id) ≡ true
  pub valid : validate_definition d ≡ []
  pub inferred :
      (e : Expression)
      → derived_expression d ≡ some e
      → check_inferred
          (keyed "mechanics" id)
          d
          (infer d definitions e (dotted (keyed "mechanics" id) "expression") [])
        ≡ []

module _ (definitions : Definitions) where
  validate_mechanic-Checked :
      (id : RulesId) (d : MechanicDefinition)
      → (validate_mechanic definitions id d).0 ≡ []
      → CheckedMechanic definitions id d
  unfolding validate_mechanic
  validate_mechanic-Checked id d clean = by_expression (derived_expression d) refl
    where
      own :
          fault_if
                (not (d.id == id))
                "mechanic_id_mismatch"
                (dotted (keyed "mechanics" id) "id")
                "mechanic map key and definition ID differ"
              ++ nest (keyed "mechanics" id) (validate_definition d)
            ≡ []
          → ((d.id == id) ≡ true) × (validate_definition d ≡ [])
      own h =
          let (named, accepted) = append-eq-nil (fault_if (not (d.id == id)) _ _ _) _ h in
          let same = fault_if-eq-nil (not (d.id == id)) _ _ _ named in
          (ground (arith, same), nest-eq-nil _ _ accepted)

      by_expression :
          (o : Option Expression) → derived_expression d ≡ o → CheckedMechanic definitions id d
      by_expression none same =
          let (named, accepted) = own (rw (same, validate_mechanic) at clean) in
          record { keyed_by = named; valid = accepted; inferred = λ e there. cc }
      by_expression (some e) same =
          let (first, second) =
            append-eq-nil
              (fault_if (not (d.id == id)) _ _ _
                ++ nest (keyed "mechanics" id) (validate_definition d))
              _ (rw (same, validate_mechanic) at clean) in
          let (named, accepted) = own first in
          record {
            keyed_by = named;
            valid = accepted;
            inferred = λ x there.
                subst
                  (λ x.
                    check_inferred (keyed "mechanics" id) d
                      (infer d definitions x (dotted (keyed "mechanics" id) "expression") [])
                    ≡ [])
                  (some-injective e x (sym same ∙ there)) second;
          }

  validate_mechanics-Checked :
      (ids : List RulesId)
      → (validate_mechanics definitions ids).0 ≡ []
      → All
          (λ id.
            (d : MechanicDefinition)
            → lookup id definitions ≡ some d
            → CheckedMechanic definitions id d)
          ids
  unfolding validate_mechanics
  validate_mechanics-Checked [] clean = tt
  validate_mechanics-Checked (id ∷ ids) clean = elim (Option-cases (lookup id definitions)) [
    | inl missing ↦ (
      λ d found. absurd (ground (arith, missing, found)),
      validate_mechanics-Checked ids (rw (missing, validate_mechanics) at clean),
    )
    | inr (d, there) ↦
        let (own, rest) =
          append-eq-nil (validate_mechanic definitions id d).0 _
            (rw (there, validate_mechanics) at clean) in
        (
          λ e found.
              subst (CheckedMechanic definitions id) (some-injective d e (sym there ∙ found))
                (validate_mechanic-Checked id d own),
          validate_mechanics-Checked ids rest,
        )
  ]

  map-append-nil :
      (errs : ValidationErrors) (o : Option ValidationErrors)
      → map (λ cycles. errs ++ cycles) o ≡ some []
      → errs ≡ []
  map-append-nil errs none h = cc
  map-append-nil errs (some cycles) h = (append-eq-nil errs cycles (some-injective _ _ h)).0

  -- Where ValidateMechanicGraph finds no error, every mechanic is accepted at its ID.
  pub validate_graph-Checked :
      validate_graph definitions ≡ some []
      → (id : RulesId) (d : MechanicDefinition) → lookup id definitions ≡ some d
      → CheckedMechanic definitions id d
  unfolding validate_graph
  validate_graph-Checked clean id d found =
      All-keys
        (λ id.
          (d : MechanicDefinition)
          → lookup id definitions ≡ some d
          → CheckedMechanic definitions id d)
        definitions id d
        (All-sort_texts_of _ (keys definitions) (
          validate_mechanics-Checked (sort_texts (keys definitions)) (
            map-append-nil (validate_mechanics definitions (sort_texts (keys definitions))).0 _
              clean)))
        found d found

-- What ValidateMechanicDefinition ensures in front of the case of the source kind, and that case.
