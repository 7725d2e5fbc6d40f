-- ===== src/App/Passwords/Admits.antt =====
-- What decodePasswordHash lets through.
use Prim.Native.Nat.{ℕ, ◌≤◌}
use Prim.Native.String.{String}
use mathlib.Core.Bool.{Bool, true, false}
use mathlib.Core.List.{List, [], ◌∷◌}
use mathlib.Core.Option.{Option}
use mathlib.Core.Path.{◌≡◌, subst}
use native.Mathlib.Nat.{mod-eq_of_lt}
use native.Mathlib.Omega.{arith}
use gezerah.Base.Lists.{length}
use gezerah.Base.Text.{codes}
use gezerah.Base.Tests.{if◌then◌else◌}
use gezerah.Errors.{Error, Result, ok, err, ok-injective, >>=-eq-ok}
use gezerah.App.Base64.{decode64}
use gezerah.App.Passwords.{
  Bytes, PasswordParameters, Argon2, split, dollar, comma, unsupported_hash, decode_password_hash,
  within, sized, decode_fields, decode_values, decode_parts, parse_password_parameter,
}
use gezerah.App.Passwords.Texts.{component_length-length}
use gezerah.App.Passwords.Roundtrip.{Admitted}

-- What is said of a decoded hash: bounded parameters, and the lengths that they name.
abbrev pub Sound : PasswordParameters × Bytes × Bytes → Type 0
Sound (q, salt, hash) = Admitted q × (q.salt_length ≡ length salt) × (q.key_length ≡ length hash)

within-eq-ok :
    (o : Option ℕ) (low high : ℕ) (message : String) (v : ℕ)
    → within o low high message ≡ ok v
    → (low ≤ v) × (v ≤ high)
within-eq-ok o low high message v run = grind arith

sized-eq-ok :
    (o : Option Bytes) (message : String) (bytes : Bytes)
    → sized o message ≡ ok bytes
    → (16 ≤ length bytes) × (length bytes ≤ 64)
sized-eq-ok o message bytes run = grind arith

decode_fields-Sound :
    (m t p salt_text hash_text : Bytes) (r : PasswordParameters × Bytes × Bytes)
    → decode_fields m t p salt_text hash_text ≡ ok r
    → Sound r
unfolding decode_fields
decode_fields-Sound m t p salt_text hash_text r run =
    let (memory, a, run) =
      >>=-eq-ok
        (within (parse_password_parameter m (codes "m=")) 8192 262144
          "password hash memory parameter is invalid")
        _ run in
    let (iterations, b, run) =
      >>=-eq-ok
        (within (parse_password_parameter t (codes "t=")) 1 10
          "password hash iteration parameter is invalid")
        _ run in
    let (parallelism, c, run) =
      >>=-eq-ok
        (within (parse_password_parameter p (codes "p=")) 1 16
          "password hash parallelism parameter is invalid")
        _ run in
    let (salt, d, run) =
      >>=-eq-ok (sized (decode64 salt_text) "password hash salt is invalid") _ run in
    let (hash, e, run) =
      >>=-eq-ok (sized (decode64 hash_text) "password hash output is invalid") _ run in
    let salt_size = sized-eq-ok (decode64 salt_text) "password hash salt is invalid" salt d in
    let hash_size = sized-eq-ok (decode64 hash_text) "password hash output is invalid" hash e in
    let salt_length = component_length-length salt (omega (arith, salt_size)) in
    let hash_length = component_length-length hash (omega (arith, hash_size)) in
    let m_bound =
      within-eq-ok (parse_password_parameter m (codes "m=")) 8192 262144
        "password hash memory parameter is invalid" memory a in
    let t_bound =
      within-eq-ok (parse_password_parameter t (codes "t=")) 1 10
        "password hash iteration parameter is invalid" iterations b in
    let p_bound =
      within-eq-ok (parse_password_parameter p (codes "p=")) 1 16
        "password hash parallelism parameter is invalid" parallelism c in
    let m_kept = mod-eq_of_lt {n = memory} {m = 4294967296} (omega (arith, m_bound)) in
    let t_kept = mod-eq_of_lt {n = iterations} {m = 4294967296} (omega (arith, t_bound)) in
    let p_kept = mod-eq_of_lt {n = parallelism} {m = 256} (omega (arith, p_bound)) in
    subst Sound (ok-injective run) (
      (
        rw m_kept m_bound,
        rw t_kept t_bound,
        rw p_kept p_bound,
        rw salt_length salt_size,
        rw hash_length hash_size,
      ),
      salt_length,
      hash_length,
    )

if-err-eq-ok {ℓ} :
    {A : Type ℓ} (b : Bool) (e : Error) {r : A} (rest : Result A)
    → ◌≡◌ {A = Result A} (if b then err e else rest) (ok r)
    → rest ≡ ok r
if-err-eq-ok true e rest run = cc
if-err-eq-ok false e rest run = run

module _ (argon2 : Argon2) where
  decode_values-Sound :
      (values : List Bytes) (salt hash : Bytes) (r : PasswordParameters × Bytes × Bytes)
      → decode_values argon2 values salt hash ≡ ok r
      → Sound r
  unfolding decode_values
  decode_values-Sound [] salt hash r run = cc
  decode_values-Sound (m ∷ []) salt hash r run = cc
  decode_values-Sound (m ∷ t ∷ []) salt hash r run = cc
  decode_values-Sound (m ∷ t ∷ p ∷ []) salt hash r run = decode_fields-Sound m t p salt hash r run
  decode_values-Sound (m ∷ t ∷ p ∷ x ∷ rest) salt hash r run = cc

  decode_parts-Sound :
      (parts : List Bytes) (r : PasswordParameters × Bytes × Bytes)
      → decode_parts argon2 parts ≡ ok r
      → Sound r
  unfolding decode_parts unsupported_hash
  decode_parts-Sound (front ∷ name ∷ version ∷ values ∷ salt ∷ hash ∷ []) r run =
      decode_values-Sound (split comma values) salt hash r (if-err-eq-ok _ _ _ run)
  decode_parts-Sound [] r run = cc
  decode_parts-Sound (a ∷ []) r run = cc
  decode_parts-Sound (a ∷ b ∷ []) r run = cc
  decode_parts-Sound (a ∷ b ∷ c ∷ []) r run = cc
  decode_parts-Sound (a ∷ b ∷ c ∷ d ∷ []) r run = cc
  decode_parts-Sound (a ∷ b ∷ c ∷ d ∷ e ∷ []) r run = cc
  decode_parts-Sound (a ∷ b ∷ c ∷ d ∷ e ∷ f ∷ g ∷ rest) r run = cc

  -- A stored hash that is decoded has parameters within the bounds of decodePasswordHash, and a salt
  -- and an output of the lengths that the parameters name, between 16 and 64 bytes.
  pub decode_password_hash-Sound :
      (encoded : Bytes) (r : PasswordParameters × Bytes × Bytes)
      → decode_password_hash argon2 encoded ≡ ok r
      → Sound r
  unfolding decode_password_hash
  decode_password_hash-Sound encoded r run = decode_parts-Sound (split dollar encoded) r run
