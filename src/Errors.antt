-- ===== src/Errors.antt =====
-- internal/rules/errors.go: field errors, domain errors and the results that carry them.
use Prim.Native.String.{String, ◌++◌}
use mathlib.Core.Bool.{Bool, true, false}
use mathlib.Core.List.{List, map}
use mathlib.Core.List as L
use mathlib.Core.Option.{Option, none, some}
use mathlib.Core.Path.{◌≡◌, refl}
use gezerah.Base.Tests.{◌==◌, string_eq, if◌then◌else◌}
use gezerah.Base.Text.{join_texts}

pub record ValidationError : Type 0 where
  pub code : String
  pub path : String
  pub message : String

abbrev pub ValidationErrors : Type 0
ValidationErrors = List ValidationError

abbrev pub validation : String → String → String → ValidationError
validation c p m = record { code = c; path = p; message = m }

-- One item, as a list.
abbrev pub fault : String → String → String → ValidationErrors
fault c p m = L.◌∷◌ (validation c p m) L.[]

-- `if b { errs = append(errs, validation(c, p, m)) }`
abbrev pub fault_if : Bool → String → String → String → ValidationErrors
fault_if b c p m = if b then L.◌∷◌ (validation c p m) L.[] else L.[]

-- (ValidationError).Error
unfoldable pub error_text : ValidationError → String
error_text e = if e.path == "" then e.message else e.path ++ ": " ++ e.message

-- (ValidationErrors).Error
unfoldable pub errors_text : ValidationErrors → String
errors_text L.[] = "validation failed"
errors_text (L.◌∷◌ e es) = join_texts "; " (map error_text (L.◌∷◌ e es))

-- The sentinel errors.
pub data ErrorKind : Type 0 where
  err_invalid_definition err_invalid_runtime_snapshot err_invalid_transition : ErrorKind
  err_effect_application err_evaluation : ErrorKind

unfoldable pub kind_text : ErrorKind → String
kind_text err_invalid_definition = "invalid definition"
kind_text err_invalid_runtime_snapshot = "invalid runtime snapshot"
kind_text err_invalid_transition = "invalid transition"
kind_text err_effect_application = "effect application failed"
kind_text err_evaluation = "evaluation failed"

pub record DomainError : Type 0 where
  pub kind : ErrorKind
  pub errors : ValidationErrors

-- A Go error of this package: a domain error, or one of fmt.Errorf with its text. `out_of_fuel` is
-- no error of the source: it marks a recursion that the model cut short.
pub data Error : Type 0 where
  domain : DomainError → Error
  plain : String → Error
  out_of_fuel : Error

-- (*DomainError).Error
pub domain_text : DomainError → String
domain_text e = elim e.errors [
  | L.[] ↦ kind_text e.kind
  | L.◌∷◌ x xs ↦ kind_text e.kind ++ ": " ++ errors_text e.errors
]

-- err.Error()
unfoldable pub text_of_error : Error → String
text_of_error (domain e) = domain_text e
text_of_error (plain s) = s
text_of_error out_of_fuel = ""

-- domainError: nil for no errors.
unfoldable pub domain_error : ErrorKind → ValidationErrors → Option Error
domain_error k L.[] = none
domain_error k (L.◌∷◌ e es) = some (domain (record { kind = k; errors = L.◌∷◌ e es }))

-- errors.Is(err, ErrEvaluation)
unfoldable pub is_evaluation_error : Error → Bool
is_evaluation_error (domain e) = elim e.kind [ err_evaluation ↦ true | _ ↦ false ]
is_evaluation_error (plain s) = false
is_evaluation_error out_of_fuel = false

-- A Go result `(A, error)`.
pub data Result {ℓ} (A : Type ℓ) : Type ℓ where
  ok : A → Result A
  err : Error → Result A

-- `v, err := …; if err != nil { return …, err }`, and the same for a result with no value.
module _ {κ} {B : Type κ} where
  infixl 5 ◌>>◌ ◌>>=◌
  abbrev pub ◌>>=◌ {ℓ} : {A : Type ℓ} → Result A → (A → Result B) → Result B
  err failure >>= continue = err failure
  ok value >>= continue = continue value

  abbrev pub ◌>>◌ : Result (Unit {0}) → Result B → Result B
  check >> rest = check >>= λ _. rest

-- `if errs := …; len(errs) > 0 { return domainError(kind, errs) }`
unfoldable pub require_valid : ErrorKind → ValidationErrors → Result (Unit {0})
require_valid k errs = elim (domain_error k errs) [ none ↦ ok tt | some e ↦ err e ]

-- evaluationError
unfoldable pub evaluation_error : String → String → Error
evaluation_error p m =
    domain (record { kind = err_evaluation; errors = fault "evaluation_failed" p m })

-- Inversion of a chain.
pub >>=-eq-ok {ℓ κ} :
    {A : Type ℓ} {B : Type κ} {b : B} (call : Result A) (continue : A → Result B)
    → (call >>= continue) ≡ ok b
    → (value : A) × (call ≡ ok value) × (continue value ≡ ok b)
>>=-eq-ok (err failure) continue run = cc
>>=-eq-ok (ok value) continue run = (value, refl, run)

pub require_valid-eq-ok :
    (k : ErrorKind) (errs : ValidationErrors) {u : Unit {0}}
    → require_valid k errs ≡ ok u
    → ◌≡◌ {A = ValidationErrors} errs L.[]
unfolding require_valid domain_error
require_valid-eq-ok k L.[] h = refl
require_valid-eq-ok k (L.◌∷◌ e es) h = cc

pub ok-injective {ℓ} : {A : Type ℓ} {a b : A} → ◌≡◌ {A = Result A} (ok a) (ok b) → a ≡ b
ok-injective h = cc

pub err-ne-ok {ℓ} : {A : Type ℓ} {e : Error} {a : A} → ◌≡◌ {A = Result A} (err e) (ok a) → ⊥
err-ne-ok h = cc

pub fault_if-eq-nil :
    (b : Bool) (c p m : String) → ◌≡◌ {A = ValidationErrors} (fault_if b c p m) L.[] → b ≡ false
fault_if-eq-nil true c p m h = cc
fault_if-eq-nil false c p m h = refl
