-- ===== src/Effects.antt =====
-- internal/rules/scalar_effects.go: the operand checks of scalar effects, and their application to
-- the override record of one entity.
pub mod Keeps
pub mod Frame
use Prim.Native.String.{String, ◌++◌ as join}
use mathlib.Core.Bool.{Bool, true, false, ◌&&◌, ◌||◌, not}
use mathlib.Core.List.{List, [], ◌∷◌, ◌++◌}
use mathlib.Core.Option.{Option, none, some}
use gezerah.Base.Tests.{◌==◌, string_eq, if◌then◌else◌}
use gezerah.Base.Map.{Map, lookup, insert}
use gezerah.Base.Text.{keyed}
use gezerah.Decimal.Parse.{
  Decimal, DecimalError, invalid_decimal, invalid_exponent, scale_too_large, Parsed, parsed, failed,
}
use gezerah.Decimal.Ops.{add}
use gezerah.Errors.{
  ValidationErrors, fault, fault_if, Error, domain, err_effect_application, Result, ok, err,
}
use gezerah.Types.{
  RulesId, ValueKind, value_number, value_boolean, value_other, MechanicValue, MechanicDefinition,
  Entity, source_input, source_derived, source_other, EffectOperation, effect_set,
  effect_adjust_number, effect_apply_status, effect_remove_status, effect_other, ConcreteEffect,
  InputOverrideRecord,
}
use gezerah.Values.{clone_value, is_some, number_value, values_equal, validate_value}
use gezerah.Definitions.{nest, valid_value_kind}
use gezerah.State.{clone_record, resolve_input, normalize_record}

-- `len(m) > 0`
abbrev pub nonempty {ℓ} : {A : Type ℓ} → List A → Bool
nonempty [] = false
nonempty (x ∷ xs) = true

abbrev status_operands : ConcreteEffect → Bool
status_operands effect =
    is_some effect.inline_status
    || nonempty effect.status_instance_ids
    || nonempty effect.status_instances

-- The case of EffectSet.
unfoldable pub validate_set_operand : ConcreteEffect → MechanicDefinition → ValidationErrors
validate_set_operand effect d = elim effect.value [
  | none ↦
      fault "invalid_effect_operand" ""
        "set requires one logical input value and no adjustment amount"
  | some v ↦
      if is_some effect.adjustment_amount
      then fault "invalid_effect_operand" ""
          "set requires one logical input value and no adjustment amount"
      else nest "value" (validate_value d v)
]

-- The switch of validateScalarEffectOperand.
unfoldable pub validate_operation_operand : ConcreteEffect → MechanicDefinition → ValidationErrors
validate_operation_operand effect d = elim effect.operation [
  | effect_set ↦ validate_set_operand effect d
  | effect_adjust_number ↦
      fault_if (is_some effect.value || not (is_some effect.adjustment_amount))
        "invalid_effect_operand" ""
        "adjust-number requires one finite adjustment amount and no value"
  | effect_apply_status ↦ fault "unsupported" "operation" "unsupported scalar effect operation"
  | effect_remove_status ↦ fault "unsupported" "operation" "unsupported scalar effect operation"
  | effect_other s ↦ fault "unsupported" "operation" "unsupported effect operation"
]

-- validateScalarEffectOperand
unfoldable pub validate_scalar_operand : ConcreteEffect → MechanicDefinition → ValidationErrors
validate_scalar_operand effect d =
    fault_if (status_operands effect) "invalid_effect_operand" ""
      "scalar effects cannot declare status operands"
    ++ validate_operation_operand effect d

abbrev is_number_kind : ValueKind → Bool
is_number_kind value_number = true
is_number_kind value_boolean = false
is_number_kind (value_other s) = false

-- scalarEffectOperationAllowed
unfoldable pub scalar_allowed : EffectOperation → MechanicDefinition → Bool
scalar_allowed operation d = elim d.source_kind [
  | source_input ↦ elim operation [
    | effect_set ↦ valid_value_kind d.value_kind
    | effect_adjust_number ↦ is_number_kind d.value_kind
    | _ ↦ false
  ]
  | source_derived ↦ false
  | source_other s ↦ false
]

-- effectApplicationError
unfoldable pub effect_error : ConcreteEffect → Entity → String → Error
effect_error effect entity message = domain (record {
  kind = err_effect_application;
  errors =
      fault "effect_application_failed"
        (keyed (join (keyed "effects" effect.id) ".entities") entity.id) message;
})

-- The text of a ParseDecimal error. The input that it quotes is not shown.
unfoldable pub decimal_error_text : DecimalError → String
decimal_error_text (invalid_decimal s) = "invalid decimal"
decimal_error_text (invalid_exponent s) = "invalid decimal exponent"
decimal_error_text scale_too_large = "decimal scale is too large"

-- The write of an override, and the normalization behind the switch.
unfoldable pub store_override :
    MechanicDefinition → MechanicValue → InputOverrideRecord → InputOverrideRecord
store_override d value r =
    normalize_record (record r { overrides = insert d.id value r.overrides }) ((d.id, d) ∷ [])

-- What becomes of an adjusted number.
unfoldable pub store_adjusted :
    ConcreteEffect
    → MechanicDefinition
    → InputOverrideRecord
    → MechanicValue
    → MechanicValue
    → Result InputOverrideRecord
store_adjusted effect d r current value = elim (validate_value d value) [
  | [] ↦ if values_equal current value then ok r else ok (store_override d value (clone_record r))
  | e ∷ es ↦ err (
      domain (record {
        kind = err_effect_application;
        errors = nest (keyed "effects" effect.id) (e ∷ es);
      }))
]

abbrev pub add_amount : Decimal → Option Decimal → Option (Parsed Decimal)
add_amount n none = none
add_amount n (some amount) = some (add n amount)

abbrev pub current_number : MechanicValue → Option Decimal
current_number v = elim v.kind [
  | value_number ↦ v.number
  | value_boolean ↦ none
  | value_other s ↦ none
]

-- The case of EffectAdjustNumber. A missing amount would be a nil dereference; the plan's validation
-- excludes it, and here it is an error of its own.
unfoldable pub apply_adjust :
    ConcreteEffect → MechanicDefinition → Entity → InputOverrideRecord → Result InputOverrideRecord
apply_adjust effect d entity r =
    let current = (resolve_input (clone_record r) d).value in
    elim (current_number current) [
      | none ↦ err (effect_error effect entity "cannot adjust a non-number logical input value")
      | some n ↦ elim (add_amount n effect.adjustment_amount) [
        | none ↦ err (effect_error effect entity "nil adjustment amount")
        | some (failed e) ↦ err (effect_error effect entity (decimal_error_text e))
        | some (parsed sum) ↦ store_adjusted effect d r current (number_value sum)
      ]
    ]

-- The case of EffectSet. A missing value would be a nil dereference, as above.
unfoldable pub apply_set :
    ConcreteEffect → MechanicDefinition → Entity → InputOverrideRecord → Result InputOverrideRecord
apply_set effect d entity r = elim effect.value [
  | none ↦ err (effect_error effect entity "nil value")
  | some v ↦ ok (store_override d (clone_value v) (clone_record r))
]

-- applyScalarEffectToInputOverrideRecord
unfoldable pub apply_scalar :
    ConcreteEffect → MechanicDefinition → Entity → InputOverrideRecord → Result InputOverrideRecord
apply_scalar effect d entity r = elim effect.operation [
  | effect_set ↦ apply_set effect d entity r
  | effect_adjust_number ↦ apply_adjust effect d entity r
  | effect_apply_status ↦ err (effect_error effect entity "unsupported scalar effect operation")
  | effect_remove_status ↦ err (effect_error effect entity "unsupported scalar effect operation")
  | effect_other s ↦ err (effect_error effect entity "unsupported effect operation")
]

abbrev override_differs : Option MechanicValue → Option MechanicValue → Bool
override_differs none none = false
override_differs none (some b) = true
override_differs (some a) none = true
override_differs (some a) (some b) = not (values_equal a b)

-- storedOverrideChanged
unfoldable pub stored_changed : InputOverrideRecord → InputOverrideRecord → RulesId → Bool
stored_changed before after id =
    override_differs (lookup id before.overrides) (lookup id after.overrides)
