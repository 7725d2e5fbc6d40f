-- ===== src/App/Passwords/Roundtrip.antt =====
-- A stored hash is read back as it was written.
use Prim.Native.Nat.{ℕ, ◌<◌, ◌≤◌}
use Prim.Native.String.{String}
use mathlib.Core.List.{[], ◌∷◌, ◌++◌}
use mathlib.Core.Option.{some}
use mathlib.Core.Path.{◌≡◌, refl, ap, ◌∙◌}
use native.Mathlib.Nat.{mod-eq_of_lt}
use native.Mathlib.Omega.{arith}
use gezerah.Base.Lists.{All, All-append, All-map_of, length}
use gezerah.Base.Text.{codes}
use gezerah.Decimal.Rat.{nat_text}
use gezerah.Errors.{ok}
use gezerah.App.Base64.{encode64, decode64-encode64, IsByte, IsSymbol, encode64-IsSymbol}
use gezerah.App.Passwords.{
  Bytes, PasswordParameters, Argon2, dollar, comma, parse_password_parameter, within, sized,
  decode_fields, decode_parts, encode_password, decode_password_hash,
}
use gezerah.Decimal.Digits.{IsDigit, nat_text-IsDigit}
use gezerah.App.Passwords.Texts.{
  Free, joined, split-joined, bytes_equal_refl, trim_prefix-append, parse_uint-nat_text,
  component_length-length,
}

-- What argon2 documents of IDKey: a key of the length that is asked for.
pub record DerivesKeys (argon2 : Argon2) : Type 0 where
  pub sized_key :
      (password salt : Bytes) (t m p k : ℕ) → length (argon2.id_key password salt t m p k) ≡ k
  pub byte_key :
      (password salt : Bytes) (t m p k : ℕ) → All IsByte (argon2.id_key password salt t m p k)

-- Parameters that decodePasswordHash admits.
abbrev pub Admitted : PasswordParameters → Type 0
Admitted q =
    ((8192 ≤ q.memory) × (q.memory ≤ 262144))
    × ((1 ≤ q.iterations) × (q.iterations ≤ 10))
    × ((1 ≤ q.parallelism) × (q.parallelism ≤ 16))
    × ((16 ≤ q.salt_length) × (q.salt_length ≤ 64))
    × ((16 ≤ q.key_length) × (q.key_length ≤ 64))

parse-parameter :
    (prefix : Bytes) (n : ℕ)
    → n < 4294967296
    → parse_password_parameter (prefix ++ nat_text n) prefix ≡ some n
unfolding parse_password_parameter
parse-parameter prefix n h =
    rw (trim_prefix-append prefix (nat_text n), parse_password_parameter) (parse_uint-nat_text n h)

within-inside :
    (v low high : ℕ) (message : String)
    → (low ≤ v) × (v ≤ high)
    → within (some v) low high message ≡ ok v
within-inside v low high message h = ground (arith, h)

sized-inside :
    (bytes : Bytes) (message : String)
    → (16 ≤ length bytes) × (length bytes ≤ 64)
    → sized (some bytes) message ≡ ok bytes
sized-inside bytes message h = ground (arith, h)

decode_fields-encoded :
    (q : PasswordParameters) (salt hash : Bytes)
    → Admitted q
    → length salt ≡ q.salt_length
    → length hash ≡ q.key_length
    → All IsByte salt
    → All IsByte hash
    → decode_fields
        (codes "m=" ++ nat_text q.memory)
        (codes "t=" ++ nat_text q.iterations)
        (codes "p=" ++ nat_text q.parallelism)
        (encode64 salt)
        (encode64 hash)
      ≡ ok (q, salt, hash)
unfolding decode_fields
decode_fields-encoded q salt hash admitted salt_size hash_size salt_bytes hash_bytes =
    let (m, t, p, s, k) = admitted in
    let small_salt : length salt ≤ 64 = omega (arith, s, salt_size) in
    let small_hash : length hash ≤ 64 = omega (arith, k, hash_size) in
    rw
      (
        parse-parameter (codes "m=") q.memory (omega (arith, m)),
        parse-parameter (codes "t=") q.iterations (omega (arith, t)),
        parse-parameter (codes "p=") q.parallelism (omega (arith, p)),
        decode64-encode64 salt salt_bytes,
        decode64-encode64 hash hash_bytes,
        within-inside q.memory 8192 262144 "password hash memory parameter is invalid" m,
        within-inside q.iterations 1 10 "password hash iteration parameter is invalid" t,
        within-inside q.parallelism 1 16 "password hash parallelism parameter is invalid" p,
        sized-inside salt "password hash salt is invalid" (omega (arith, s, salt_size), small_salt),
        sized-inside hash "password hash output is invalid"
            (omega (arith, k, hash_size), small_hash),
        component_length-length salt (omega (arith, small_salt)),
        component_length-length hash (omega (arith, small_hash)),
        salt_size,
        hash_size,
        mod-eq_of_lt {n = q.memory} {m = 4294967296} (omega (arith, m)),
        mod-eq_of_lt {n = q.iterations} {m = 4294967296} (omega (arith, t)),
        mod-eq_of_lt {n = q.parallelism} {m = 256} (omega (arith, p)),
        decode_fields,
      )
      refl

IsDigit-Free : (s : Bytes) → All IsDigit s → Free dollar s × Free comma s
IsDigit-Free s h = (
  All-map_of (λ c digit. ground (arith, digit)) s h,
  All-map_of (λ c digit. ground (arith, digit)) s h,
)

-- A parameter as it is written has neither separator.
parameter-Free :
    (prefix : Bytes) (n : ℕ)
    → Free dollar prefix × Free comma prefix
    → Free dollar (prefix ++ nat_text n) × Free comma (prefix ++ nat_text n)
parameter-Free prefix n h =
    let digits = IsDigit-Free (nat_text n) (nat_text-IsDigit n) in
    (All-append _ prefix (nat_text n) h.0 digits.0, All-append _ prefix (nat_text n) h.1 digits.1)

IsSymbol-Free : (s : Bytes) → All IsSymbol s → Free dollar s
IsSymbol-Free s h = All-map_of (λ c symbol. ground (arith, symbol)) s h

-- The parameters of a hash, as they are written.
abbrev values_text : PasswordParameters → Bytes
values_text q =
    joined comma (codes "m=" ++ nat_text q.memory)
      ((codes "t=" ++ nat_text q.iterations) ∷ (codes "p=" ++ nat_text q.parallelism) ∷ [])

values_text-Free : (q : PasswordParameters) → Free dollar (values_text q)
values_text-Free q =
    All-append _ (codes "m=" ++ nat_text q.memory) _
      (parameter-Free (codes "m=") q.memory (ground arith, ground arith)).0
      (
        refl,
        All-append _ (codes "t=" ++ nat_text q.iterations) _
            (parameter-Free (codes "t=") q.iterations (ground arith, ground arith)).0
            (refl, (parameter-Free (codes "p=") q.parallelism (ground arith, ground arith)).0),
      )

module _ (argon2 : Argon2) (documented : DerivesKeys argon2) where
  abbrev key_of : Bytes → Bytes → PasswordParameters → Bytes
  key_of password salt q =
      argon2.id_key password salt q.iterations q.memory q.parallelism q.key_length

  -- A hash that encodePassword writes with admitted parameters and a salt of their length is
  -- decoded to the parameters, the salt and the key.
  pub decode_password_hash-encode_password :
      (password salt : Bytes) (q : PasswordParameters)
      → Admitted q
      → length salt ≡ q.salt_length
      → All IsByte salt
      → decode_password_hash argon2 (encode_password argon2 password salt q)
        ≡ ok (q, salt, key_of password salt q)
  unfolding decode_password_hash encode_password
  decode_password_hash-encode_password password salt q admitted size bytes =
      let hash = key_of password salt q in
      let fields =
        split-joined dollar []
          (codes "argon2id"
            ∷ (codes "v=" ++ nat_text argon2.version)
            ∷ values_text q
            ∷ encode64 salt
            ∷ encode64 hash
            ∷ [])
          (
            tt,
            (
              ground arith,
              (
                (parameter-Free (codes "v=") argon2.version (ground arith, ground arith)).0,
                (
                  values_text-Free q,
                  (
                    IsSymbol-Free (encode64 salt) (encode64-IsSymbol salt bytes),
                    (
                      IsSymbol-Free (encode64 hash)
                          (encode64-IsSymbol hash (documented.byte_key _ _ _ _ _ _)),
                      tt,
                    ),
                  ),
                ),
              ),
            ),
          ) in
      let values =
        split-joined comma (codes "m=" ++ nat_text q.memory)
          ((codes "t=" ++ nat_text q.iterations) ∷ (codes "p=" ++ nat_text q.parallelism) ∷ [])
          (
            (parameter-Free (codes "m=") q.memory (ground arith, ground arith)).1,
            (
              (parameter-Free (codes "t=") q.iterations (ground arith, ground arith)).1,
              ((parameter-Free (codes "p=") q.parallelism (ground arith, ground arith)).1, tt),
            ),
          ) in
      ap (decode_parts argon2) fields
      ∙ rw (bytes_equal_refl (codes "v=" ++ nat_text argon2.version), values, decode_parts)
          (decode_fields-encoded q salt hash admitted size (documented.sized_key _ _ _ _ _ _) bytes
            (documented.byte_key _ _ _ _ _ _))
