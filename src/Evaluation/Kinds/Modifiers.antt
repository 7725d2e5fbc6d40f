-- ===== src/Evaluation/Kinds/Modifiers.antt =====
-- The modifiers that validateStatusModifier accepts keep the kind of a value.
use Prim.Native.String.{String, ◌++◌ as join}
use mathlib.Core.Bool.{true, false, not, ◌||◌}
use mathlib.Core.List.{List, [], ◌∷◌}
use mathlib.Core.Logic.{inl, inr}
use mathlib.Core.Option.{some}
use mathlib.Core.Path.{◌≡◌, refl, sym, subst, ◌∙◌}
use native.Mathlib.Omega.{arith}
use gezerah.Base.Tests.{◌==◌, string_eq, Bool-cases, Option-cases}
use gezerah.Base.Lists.{All}
use gezerah.Base.Text.{keyed}
use gezerah.Decimal.Parse.{Decimal, scale_too_large, Parsed}
use gezerah.Decimal.Arithmetic.{InRange, add-InRange, multiply-InRange}
use gezerah.Decimal.Ops.{add, multiply}
use gezerah.Errors.{
  Error, out_of_fuel, Result, ok, err, ◌>>=◌, evaluation_error, fault_if-eq-nil, text_of_error,
}
use gezerah.Types.{
  RulesId, value_number, kind_eq, kind_beq_iff, MechanicValue, MechanicDefinition, StatusModifier,
  ModifierOperation, modifier_set, modifier_add_number, modifier_multiply_number, modifier_other,
  AppliedModifier,
}
use gezerah.Values.{valid_shape}
use gezerah.Effects.{decimal_error_text}
use gezerah.Statuses.{validate_modifier}
use gezerah.Evaluation.Operations.{apply_modifier, combine_modifier, as_number, lift_decimal}
use gezerah.Evaluation.Modifiers.{ResolvedModifier, modifier_result, apply_modifiers, applied}
use gezerah.Evaluation.Evaluator.{Evaluator, cycle_error}
use gezerah.Evaluation.Kinds.{Shaped, Post, Post-bind}
use gezerah.Evaluation.Kinds.Inside.{fault-ne-nil}
use gezerah.Evaluation.Kinds.Operators.{lift_decimal-Sane}

-- The errors that a well-typed evaluation can still meet.
pub data Benign : Error → Type 0 where
  cyclic : (id : RulesId) (s : Evaluator) → Benign (cycle_error id s)
  overflow : (path : String) → Benign (evaluation_error path (decimal_error_text scale_too_large))
  stopped : Benign out_of_fuel

as_number-some :
    (v : MechanicValue) → Shaped value_number v → (a : Decimal) × (as_number v ≡ some a)
unfolding valid_shape
as_number-some v h = elim (Option-cases v.number) [
  | inl missing ↦ absurd (ground (arith, missing, h.0, h.1))
  | inr (a, there) ↦ (a, ground (arith, there, h.0))
]

combine_modifier-Shaped :
    (f : Decimal → Decimal → Parsed Decimal) (message : String) (v w : MechanicValue)
    → ((a b : Decimal) → InRange (f a b))
    → Shaped value_number v
    → Shaped value_number w
    → Post (Shaped value_number) (combine_modifier f message (as_number v) (as_number w))
unfolding valid_shape
combine_modifier-Shaped f message v w ranged hv hw =
    let (a, va) = as_number-some v hv in
    let (b, wb) = as_number-some w hw in
    rw (va, wb)
      (Post-bind (λ _. Unit {0}) _ (lift_decimal (f a b)) _ (lift_decimal-Sane (f a b) (ranged a b))
        λ c _. (refl, refl))

module _ (d : MechanicDefinition) (m : StatusModifier) (v : MechanicValue)
    (shaped : Shaped d.value_kind v) (good : valid_shape m.value ≡ true) where
  numeric-Shaped :
      (f : Decimal → Decimal → Parsed Decimal) (message : String)
      → ((a b : Decimal) → InRange (f a b))
      → (not (d.value_kind == value_number) || not (m.value.kind == value_number)) ≡ false
      → Post (Shaped d.value_kind) (combine_modifier f message (as_number v) (as_number m.value))
  numeric-Shaped f message ranged numeric =
      let kind : d.value_kind ≡ value_number =
        (kind_beq_iff d.value_kind value_number).0 (ground (arith, numeric)) in
      let operand : m.value.kind ≡ value_number =
        (kind_beq_iff m.value.kind value_number).0 (ground (arith, numeric)) in
      subst (λ k. Post (Shaped k) (combine_modifier f message (as_number v) (as_number m.value)))
        (sym kind)
        (combine_modifier-Shaped f message v m.value ranged (shaped.0 ∙ kind, shaped.1)
          (operand, good))

  set-Shaped :
      (not (m.value.kind == d.value_kind)) ≡ false
      → (v.kind == m.value.kind ≡ true) × Shaped d.value_kind m.value
  set-Shaped same =
      let kind : m.value.kind ≡ d.value_kind =
        (kind_beq_iff m.value.kind d.value_kind).0 (ground (arith, same)) in
      ((kind_beq_iff v.kind m.value.kind).1 (shaped.0 ∙ sym kind), (kind, good))

  operation-Shaped :
      (op : ModifierOperation)
      → m.operation ≡ op
      → validate_modifier m d ≡ []
      → Post (Shaped d.value_kind) (apply_modifier v m)
  unfolding validate_modifier apply_modifier
  operation-Shaped modifier_set o h =
      let (same, fits) =
        set-Shaped (fault_if-eq-nil _ _ _ _ (rw (good, o, validate_modifier) at h)) in
      rw (o, same, apply_modifier) fits
  operation-Shaped modifier_add_number o h =
      rw (o, apply_modifier)
        (numeric-Shaped add _ add-InRange
          (fault_if-eq-nil _ _ _ _ (rw (good, o, validate_modifier) at h)))
  operation-Shaped modifier_multiply_number o h =
      rw (o, apply_modifier)
        (numeric-Shaped multiply _ multiply-InRange
          (fault_if-eq-nil _ _ _ _ (rw (good, o, validate_modifier) at h)))
  operation-Shaped (modifier_other s) o h =
      absurd (fault-ne-nil _ _ _ (rw (good, o, validate_modifier) at h))

apply_modifier-Shaped :
    (d : MechanicDefinition) (m : StatusModifier) (v : MechanicValue)
    → validate_modifier m d ≡ []
    → Shaped d.value_kind v
    → Post (Shaped d.value_kind) (apply_modifier v m)
unfolding validate_modifier
apply_modifier-Shaped d m v accepted h = elim (Bool-cases (valid_shape m.value)) [
  | inr bad ↦ absurd (fault-ne-nil _ _ _ (rw (bad, validate_modifier) at accepted))
  | inl good ↦ operation-Shaped d m v h good m.operation refl accepted
]

-- A result with the property, or one of the errors.
abbrev pub Ends {ℓ} : {A : Type ℓ} → (A → Type 0) → Result A → Type 0
Ends P (ok a) = P a
Ends P (err e) = Benign e

abbrev modifier_path : ResolvedModifier → String
modifier_path r =
    join (keyed "active_status_instances" r.instance_of.id) (keyed ".modifiers" r.modifier.id)

modifier_result-Ends :
    (P : MechanicValue → Type 0) (r : ResolvedModifier) (m : Result MechanicValue)
    → Post P m
    → Ends P (modifier_result r m)
unfolding text_of_error
modifier_result-Ends P r (ok v) h = h
modifier_result-Ends P r (err e) same =
    subst (λ e. Benign (evaluation_error (modifier_path r) (text_of_error e))) (sym same)
      (overflow (modifier_path r))

pub apply_modifiers-Ends :
    (d : MechanicDefinition) (rs : List ResolvedModifier) (v : MechanicValue)
    → All (λ r. validate_modifier r.modifier d ≡ []) rs
    → Shaped d.value_kind v
    → Ends (λ p. Shaped d.value_kind p.0) (apply_modifiers rs v)
unfolding apply_modifiers
apply_modifiers-Ends d [] v accepted h = h
apply_modifiers-Ends d (r ∷ rs) v accepted h =
    first (modifier_result r (apply_modifier v r.modifier))
      (modifier_result-Ends (Shaped d.value_kind) r (apply_modifier v r.modifier)
        (apply_modifier-Shaped d r.modifier v accepted.0 h))
      λ w hw. apply_modifiers-Ends d rs w accepted.1 hw
  where
    second :
        (w : MechanicValue) (x : Result (MechanicValue × List AppliedModifier))
        → Ends (λ p. Shaped d.value_kind p.0) x
        → Ends {A = MechanicValue × List AppliedModifier}
            (λ p. Shaped d.value_kind p.0)
            (x >>= λ (e, steps). ok (e, applied r v w ∷ steps))
    second w (ok p) h = h
    second w (err e) h = h

    first :
        (x : Result MechanicValue)
        → Ends (Shaped d.value_kind) x
        → ((w : MechanicValue)
            → Shaped d.value_kind w
            → Ends (λ p. Shaped d.value_kind p.0) (apply_modifiers rs w))
        → Ends {A = MechanicValue × List AppliedModifier}
            (λ p. Shaped d.value_kind p.0)
            (x >>= λ w. apply_modifiers rs w >>= λ (e, steps). ok (e, applied r v w ∷ steps))
    first (ok w) h later = second w (apply_modifiers rs w) (later w h)
    first (err e) h later = h
