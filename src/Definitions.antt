-- ===== src/Definitions.antt =====
-- internal/rules/definitions.go: the checks on one entity and on one mechanic definition.
use Prim.Native.String.{String}
use Prim.Native.Char.{code}
use mathlib.Core.Bool.{Bool, true, false, ◌&&◌, ◌||◌, not}
use mathlib.Core.List.{[], ◌∷◌, ◌++◌, map}
use mathlib.Core.Option.{Option, none, some}
use mathlib.Core.Path.{◌≡◌, refl}
use text.Mathlib.Text.{starts_with}
use gezerah.Base.Tests.{◌==◌, string_eq, if◌then◌else◌}
use gezerah.Base.Text.{dotted}
use gezerah.Decimal.Parse.{Decimal, is_space}
use gezerah.Decimal.Ops.{cmp, is_positive, is_gt}
use gezerah.Errors.{ValidationError, ValidationErrors, fault_if}
use gezerah.Types.{
  valid, ValueKind, value_number, value_boolean, value_other, kind_eq, SourceKind, source_input,
  source_derived, source_other, MechanicValue, Entity, MechanicDefinition,
}
use gezerah.Values.{is_some, validate_value}

-- strings.TrimSpace(s) == ""
unfoldable pub is_blank : String → Bool
is_blank String.[] = true
is_blank (String.◌∷◌ c s) = is_space (code c) && is_blank s

-- pathForNestedValidation of internal/rules/scalar_effects.go
unfoldable pub nested_path : String → String → String
nested_path prefix path =
    if path == "" || path == prefix
    then prefix
    else if starts_with path prefix
    then path
    else dotted prefix path

-- The loops that append each nested item with its path under `prefix`, and prefixValidationErrors.
unfoldable pub nest : String → ValidationErrors → ValidationErrors
nest prefix errs =
    map {A = ValidationError} (λ e. record e { path = nested_path prefix e.path }) errs

-- ValidateEntity
unfoldable pub validate_entity : Entity → ValidationErrors
validate_entity entity =
    fault_if (not (valid entity.id)) "required" "id" "entity ID is required"
    ++ fault_if (not (valid entity.world_id)) "required" "world_id" "world ID is required"
    ++ fault_if (is_blank entity.display_name) "required" "display_name"
        "entity display name is required"

-- validValueKind
abbrev pub valid_value_kind : ValueKind → Bool
valid_value_kind value_number = true
valid_value_kind value_boolean = true
valid_value_kind (value_other s) = false

-- validSourceKind
abbrev pub valid_source_kind : SourceKind → Bool
valid_source_kind source_input = true
valid_source_kind source_derived = true
valid_source_kind (source_other s) = false

-- mechanicValueEmpty
unfoldable pub value_empty : MechanicValue → Bool
value_empty v = v.kind == value_other "" && not (is_some v.number) && not (is_some v.boolean)

abbrev crossed : Option Decimal → Option Decimal → Bool
crossed (some lo) (some hi) = is_gt (cmp lo hi)
crossed (some lo) none = false
crossed none hi = false

abbrev not_positive : Option Decimal → Bool
not_positive none = false
not_positive (some s) = not (is_positive s)

abbrev bound_field : String → String → String
bound_field path name = if path == "" then name else dotted path name

-- validateBounds
unfoldable pub validate_bounds :
    Option Decimal → Option Decimal → Option Decimal → String → ValidationErrors
validate_bounds minimum maximum step path =
    fault_if (crossed minimum maximum) "invalid_bounds" (bound_field path "maximum")
      "maximum must be greater than or equal to minimum"
    ++ fault_if (not_positive step) "invalid_step" (bound_field path "step")
        "step must be a positive finite exact decimal"

abbrev pub has_bounds : MechanicDefinition → Bool
has_bounds d = is_some d.minimum || is_some d.maximum || is_some d.step

-- The case of an input mechanic.
unfoldable pub validate_input : MechanicDefinition → ValidationErrors
validate_input d =
    fault_if (is_some d.expression) "invalid_source" "expression"
      "input mechanics cannot declare a derived expression"
    ++ elim d.value_kind [
      | value_number ↦ validate_bounds d.minimum d.maximum d.step ""
      | value_boolean ↦
          fault_if (has_bounds d) "invalid_metadata" "value_kind"
            "boolean mechanics cannot declare numeric bounds or a step"
      | value_other s ↦ []
    ]
    ++ nest "default_value" (validate_value d d.default_value)

-- The case of a derived mechanic.
unfoldable pub validate_derived : MechanicDefinition → ValidationErrors
validate_derived d =
    fault_if (not (is_some d.expression)) "required" "expression"
      "derived mechanics require an expression"
    ++ fault_if (not (value_empty d.default_value)) "invalid_source" "default_value"
        "derived Mechanics cannot declare an authored default"
    ++ fault_if (has_bounds d) "invalid_source" "source_kind"
        "derived mechanics cannot declare storage bounds or a step"
    ++ fault_if d.mutable "invalid_source" "mutable" "derived mechanics cannot be directly mutable"

-- ValidateMechanicDefinition
unfoldable pub validate_definition : MechanicDefinition → ValidationErrors
validate_definition d =
    fault_if (not (valid d.id)) "required" "id" "mechanic ID is required"
    ++ fault_if (not (valid d.world_id)) "required" "world_id" "world ID is required"
    ++ fault_if (not (valid_value_kind d.value_kind)) "unsupported" "value_kind"
        "mechanic must be number or boolean"
    ++ fault_if (not (valid_source_kind d.source_kind)) "unsupported" "source_kind"
        "mechanic source must be input or derived"
    ++ elim d.source_kind [
      | source_input ↦ validate_input d
      | source_derived ↦ validate_derived d
      | source_other s ↦ []
    ]

pub nest-eq-nil : (path : String) (errs : ValidationErrors) → nest path errs ≡ [] → errs ≡ []
unfolding nest
nest-eq-nil path [] h = refl
nest-eq-nil path (e ∷ es) h = cc
