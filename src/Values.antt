-- ===== src/Values.antt =====
-- internal/rules/values.go: typed values, their shape and their bounds. A clone of a value shares no
-- pointer with it, so `CloneMechanicValue` is the identity here.
use Prim.Native.String.{String}
use mathlib.Core.Bool.{Bool, true, false, ◌&&◌, not}
use mathlib.Core.List.{[], ◌++◌}
use mathlib.Core.Option.{Option, none, some, get_or}
use gezerah.Base.Tests.{◌==◌, if◌then◌else◌}
use gezerah.Decimal.Parse.{Decimal, zero_decimal}
use gezerah.Decimal.Ops.{cmp, equal, is_positive, is_lt, is_gt, aligns_to}
use gezerah.Errors.{ValidationErrors, fault, fault_if}
use gezerah.Types.{
  value_number, value_boolean, value_other, kind_eq, MechanicValue, MechanicDefinition,
}

-- NewNumberMechanicValue
abbrev pub number_value : Decimal → MechanicValue
number_value d = record { kind = value_number; number = some d; boolean = none }

-- NewBooleanMechanicValue
abbrev pub boolean_value : Bool → MechanicValue
boolean_value b = record { kind = value_boolean; number = none; boolean = some b }

abbrev pub is_some {ℓ} : {A : Type ℓ} → Option A → Bool
is_some none = false
is_some (some a) = true

-- decimalPointer, CloneMechanicValue
abbrev pub clone_value : MechanicValue → MechanicValue
clone_value v = record { kind = v.kind; number = v.number; boolean = v.boolean }

abbrev numbers_equal : Option Decimal → Option Decimal → Bool
numbers_equal (some a) (some b) = equal a b
numbers_equal (some a) none = false
numbers_equal none b = false

abbrev booleans_equal : Option Bool → Option Bool → Bool
booleans_equal (some true) (some b) = b
booleans_equal (some false) (some b) = not b
booleans_equal (some a) none = false
booleans_equal none b = false

-- MechanicValuesEqual
unfoldable pub values_equal : MechanicValue → MechanicValue → Bool
values_equal left right = if not (left.kind == right.kind) then false else elim left.kind [
  | value_number ↦ numbers_equal left.number right.number
  | value_boolean ↦ booleans_equal left.boolean right.boolean
  | value_other s ↦ false
]

-- validMechanicValueShape
unfoldable pub valid_shape : MechanicValue → Bool
valid_shape v = elim v.kind [
  | value_number ↦ is_some v.number && not (is_some v.boolean)
  | value_boolean ↦ not (is_some v.number) && is_some v.boolean
  | value_other s ↦ false
]

abbrev below_minimum : Decimal → Option Decimal → Bool
below_minimum value none = false
below_minimum value (some m) = is_lt (cmp value m)

abbrev above_maximum : Decimal → Option Decimal → Bool
above_maximum value none = false
above_maximum value (some m) = is_gt (cmp value m)

abbrev off_step : Decimal → Option Decimal → Option Decimal → Bool
off_step value minimum none = false
off_step value minimum (some s) =
    is_positive s && not (aligns_to value s (get_or minimum zero_decimal))

-- validateDecimalAgainstBounds
unfoldable pub validate_against_bounds :
    Decimal → Option Decimal → Option Decimal → Option Decimal → String → ValidationErrors
validate_against_bounds value minimum maximum step path =
    fault_if (below_minimum value minimum) "below_minimum" path
      "number is below the configured minimum"
    ++ fault_if (above_maximum value maximum) "above_maximum" path
        "number is above the configured maximum"
    ++ fault_if (off_step value minimum step) "step_mismatch" path
        "number does not align to the configured step"

-- ValidateMechanicValue
unfoldable pub validate_value : MechanicDefinition → MechanicValue → ValidationErrors
validate_value definition value =
    if not (value.kind == definition.value_kind)
    then fault "value_kind_mismatch" "kind" "mechanic value kind does not match its definition"
    else if not (valid_shape value)
    then fault "invalid_typed_value" "" "mechanic value has missing or unexpected fields"
    else elim value.number [
      | none ↦ []
      | some n ↦
          validate_against_bounds n definition.minimum definition.maximum definition.step "number"
    ]
