-- ===== src/App/Failures.antt =====
-- internal/app/support.go: the errors of a handler and what handleAppError answers to them.
use Prim.Native.Nat.{ℕ}
use Prim.Native.String.{String}
use mathlib.Core.Bool.{Bool, true, false, ◌||◌}
use mathlib.Core.List.{[]}
use mathlib.Core.Option.{Option, none, some}
use mathlib.Core.Path.{◌≡◌, refl}
use gezerah.Base.Map.{Map}
use gezerah.Base.Tests.{◌==◌, string_eq, if◌then◌else◌}

-- statusError; `status` is the HTTP status code.
pub record StatusError : Type 0 where
  pub status : ℕ
  pub code : String
  pub message : String
  pub fields : Map String

abbrev pub plain_status : ℕ → String → String → StatusError
plain_status s c m = record { status = s; code = c; message = m; fields = [] }

-- The errors that handleAppError tells apart: a statusError, pgx.ErrNoRows, an error of the
-- database with its code, and any other.
pub data AppError : Type 0 where
  status_error : StatusError → AppError
  no_rows : AppError
  database_error : String → AppError
  other_error : AppError

-- handleAppError, as the error that is written to the client.
unfoldable pub handle_app_error : AppError → StatusError
handle_app_error (status_error e) = e
handle_app_error no_rows = plain_status 404 "not_found" "resource not found"
handle_app_error (database_error code) =
    if code == "23505"
    then plain_status 409 "conflict" "the requested change conflicts with current data"
    else if code == "23503"
    then plain_status 422 "invalid_reference" "a referenced world resource does not exist"
    else if code == "23514" || code == "22P02" || code == "22003"
    then plain_status 422 "validation_failed" "resource violates a data constraint"
    else plain_status 500 "database_error" "database operation failed"
handle_app_error other_error = plain_status 500 "internal_error" "internal server error"

-- A Go result `(A, error)` of this package.
pub data Attempt {ℓ} (A : Type ℓ) : Type ℓ where
  done : A → Attempt A
  failed : AppError → Attempt A

abbrev pub refused {ℓ} : {A : Type ℓ} → ℕ → String → String → Attempt A
refused s c m = failed (status_error (plain_status s c m))

-- `if err != nil { return err }`
abbrev pub require : Option AppError → Attempt (Unit {0})
require none = done tt
require (some e) = failed e

-- `if !b { return err }`
abbrev pub require_that : Bool → AppError → Attempt (Unit {0})
require_that true e = done tt
require_that false e = failed e

module _ {κ} {B : Type κ} where
  infixl 5 ◌>>◌ ◌>>=◌
  abbrev pub ◌>>=◌ {ℓ} : {A : Type ℓ} → Attempt A → (A → Attempt B) → Attempt B
  failed e >>= continue = failed e
  done a >>= continue = continue a

  abbrev pub ◌>>◌ : Attempt (Unit {0}) → Attempt B → Attempt B
  check >> rest = check >>= λ _. rest

pub >>=-eq-done {ℓ κ} :
    {A : Type ℓ} {B : Type κ} {b : B} (call : Attempt A) (continue : A → Attempt B)
    → (call >>= continue) ≡ done b
    → (a : A) × (call ≡ done a) × (continue a ≡ done b)
>>=-eq-done (failed e) continue run = cc
>>=-eq-done (done a) continue run = (a, refl, run)

pub done-injective {ℓ} : {A : Type ℓ} (a b : A) → done a ≡ done b → a ≡ b
done-injective a b same = cc

pub require_that-eq-done :
    (b : Bool) (e : AppError) {u : Unit {0}} → require_that b e ≡ done u → b ≡ true
require_that-eq-done true e run = refl
require_that-eq-done false e run = cc
