-- ===== src/Evaluation/Kinds/Sources.antt =====
-- The input or the expression of a mechanic that the checks accept has the declared kind.
use Prim.Native.String.{String}
use mathlib.Core.Bool.{true, not}
use mathlib.Core.List.{[], ◌++◌}
use mathlib.Core.Logic.{inl, inr}
use mathlib.Core.Option.{some}
use mathlib.Core.Path.{◌≡◌, sym, subst}
use native.Mathlib.Omega.{arith}
use text.Mathlib.TextEquality.{eq_iff}
use gezerah.Base.Tests.{◌==◌, string_eq, Option-cases}
use gezerah.Base.Int.{pos, ltb_ℤ}
use gezerah.Base.Lists.{append-eq-nil}
use gezerah.Base.Map.{lookup, Entries-lookup}
use gezerah.Base.Text.{keyed, dotted}
use gezerah.Errors.{fault_if, fault_if-eq-nil}
use gezerah.Types.{
  RulesId, value_number, value_boolean, value_other, kind_eq, kind_beq_iff, MechanicDefinition,
  valid, source_input, source_derived, source_other, Entity, InputOverrideRecord, Expression,
}
use gezerah.Values.{is_some, validate_value}
use gezerah.Definitions.{
  valid_value_kind, validate_definition, has_bounds, valid_source_kind, validate_bounds,
  validate_input, validate_derived, nest, nest-eq-nil,
}
use gezerah.State.{Definitions, override_path, resolve_input, validate_record, validate_override}
use gezerah.State.Validity.{ValidOverride, validate_overrides-nil}
use gezerah.Graph.Infer.{infer}
use gezerah.Graph.Compile.{check_inferred, derived_expression}
use gezerah.Evaluation.Kinds.{Shaped}
use gezerah.Evaluation.Kinds.Checked.{validate_value-Shaped, CheckedMechanic}

pub validate_definition-eq-nil :
    (d : MechanicDefinition)
    → validate_definition d ≡ []
    → (valid_value_kind d.value_kind ≡ true)
      × (valid_source_kind d.source_kind ≡ true)
      × ((elim d.source_kind [
        | source_input ↦ validate_input d
        | source_derived ↦ validate_derived d
        | source_other s ↦ []
      ])
          ≡ [])
unfolding validate_definition
validate_definition-eq-nil d clean =
    let (first, by_source) =
      append-eq-nil
        (fault_if (not (valid d.id)) _ _ _
          ++ fault_if (not (valid d.world_id)) _ _ _
          ++ fault_if (not (valid_value_kind d.value_kind)) _ _ _
          ++ fault_if (not (valid_source_kind d.source_kind)) _ _ _)
        _ clean in
    let (second, source) =
      append-eq-nil
        (fault_if (not (valid d.id)) _ _ _
          ++ fault_if (not (valid d.world_id)) _ _ _
          ++ fault_if (not (valid_value_kind d.value_kind)) _ _ _)
        _ first in
    let (_, kind) =
      append-eq-nil (fault_if (not (valid d.id)) _ _ _ ++ fault_if (not (valid d.world_id)) _ _ _) _
        second in
    let source' = fault_if-eq-nil (not (valid_source_kind d.source_kind)) _ _ _ source in
    let kind' = fault_if-eq-nil (not (valid_value_kind d.value_kind)) _ _ _ kind in
    (ground (arith, kind'), ground (arith, source'), by_source)

default-Shaped :
    (d : MechanicDefinition)
    → validate_definition d ≡ []
    → d.source_kind ≡ source_input
    → Shaped d.value_kind d.default_value
unfolding validate_input
default-Shaped d clean input =
    let (_, _, by_source) = validate_definition-eq-nil d clean in
    let (_, default) =
      append-eq-nil
        (fault_if (is_some d.expression) "invalid_source" "expression"
            "input mechanics cannot declare a derived expression"
          ++ elim d.value_kind [
            | value_number ↦ validate_bounds d.minimum d.maximum d.step ""
            | value_boolean ↦
                fault_if (has_bounds d) "invalid_metadata" "value_kind"
                  "boolean mechanics cannot declare numeric bounds or a step"
            | value_other s ↦ []
          ])
        (nest "default_value" (validate_value d d.default_value))
        (rw (input, validate_input) at by_source) in
    validate_value-Shaped d d.default_value (nest-eq-nil _ _ default)

-- The input of an entity at a mechanic, where the record and the definition are accepted.
pub resolve_input-Shaped :
    (entity : Entity) (r : InputOverrideRecord) (definitions : Definitions) (id : RulesId)
    (d : MechanicDefinition)
    → validate_record r entity definitions ≡ []
    → CheckedMechanic definitions id d
    → lookup id definitions ≡ some d
    → (d.world_id == entity.world_id) ≡ true
    → d.source_kind ≡ source_input
    → Shaped d.value_kind (resolve_input r d).value
unfolding validate_record resolve_input validate_override validate_value nest
resolve_input-Shaped entity r definitions id d clean checked found near input =
    elim (Option-cases (lookup d.id r.overrides)) [
      | inl missing ↦ rw (missing, resolve_input) (default-Shaped d checked.valid input)
      | inr (v, there) ↦
          let (_, overrides) =
            append-eq-nil
              (fault_if (not (r.entity_id == entity.id)) _ _ _
                ++ fault_if (ltb_ℤ r.revision (pos 0)) _ _ _)
              _ clean in
          let own : lookup d.id definitions ≡ some d =
            subst (λ i. lookup i definitions ≡ some d) (sym ((eq_iff d.id id).0 checked.keyed_by))
              found in
          let accepted =
            Entries-lookup (ValidOverride entity definitions) d.id r.overrides
              (validate_overrides-nil entity definitions r.overrides overrides) there in
          let (value, _) =
            append-eq-nil (nest (override_path d.id) (validate_value d v)) _
              (rw (own, near, input, validate_override) at accepted) in
          rw (there, resolve_input) (validate_value-Shaped d v (nest-eq-nil _ _ value))
    ]

-- The expression of an accepted derived mechanic.
pub derived-Typed :
    (definitions : Definitions) (id : RulesId) (d : MechanicDefinition)
    → CheckedMechanic definitions id d
    → d.source_kind ≡ source_derived
    → (e : Expression) × (path : String) × (d.expression ≡ some e)
      × ((infer d definitions e path []).errors ≡ [])
      × (valid_value_kind (infer d definitions e path []).kind ≡ true
          → (infer d definitions e path []).kind ≡ d.value_kind)
unfolding check_inferred validate_derived
derived-Typed definitions id d checked derived = elim (Option-cases d.expression) [
  | inl missing ↦
      let (_, _, by_source) = validate_definition-eq-nil d checked.valid in
      let refused = rw (derived, missing, validate_derived) at by_source in cc
  | inr (e, there) ↦
      let path = dotted (keyed "mechanics" id) "expression" in
      let (valid_kind, _, _) = validate_definition-eq-nil d checked.valid in
      let (errors, clash) =
        append-eq-nil (infer d definitions e path []).errors _
          (checked.inferred e (rw (derived, derived_expression) there)) in
      let same = fault_if-eq-nil _ _ _ _ clash in
      (
        e,
        path,
        there,
        errors,
        λ valid_inferred.
            (kind_beq_iff (infer d definitions e path []).kind d.value_kind).0
              (ground (arith, same, valid_kind, valid_inferred)),
      )
]
