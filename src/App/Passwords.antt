-- ===== src/App/Passwords.antt =====
-- internal/app/auth.go: hashing of passwords, and the text in which a hash is stored. A text is the
-- list of its bytes. Argon2id is a parameter, and so is the source of random salts.
pub mod Texts
pub mod Roundtrip
pub mod Verify
pub mod Admits
use Prim.Native.Nat.{ℕ, suc, ◌+◌, ◌-◌, ◌%◌}
use Prim.Native.String.{String, ◌++◌ as join}
use mathlib.Core.Bool.{Bool, true, false, not, ◌||◌, ◌&&◌}
use mathlib.Core.List.{List, [], ◌∷◌, ◌++◌}
use mathlib.Core.Logic.{◌⊎◌, inl, inr}
use mathlib.Core.Option.{Option, none, some}
use gezerah.Base.Lists.{length}
use gezerah.Base.Tests.{ltb, leb, nat_beq, if◌then◌else◌}
use gezerah.Base.Text.{codes}
use gezerah.Decimal.Parse.{is_empty, all_digits, digits_value}
use gezerah.Decimal.Rat.{nat_text}
use gezerah.Errors.{Error, Result, ok, err, plain, ◌>>=◌, ◌>>◌}
use gezerah.App.Base64.{encode64, decode64}

abbrev pub Bytes : Type 0
Bytes = List ℕ

-- passwordParameters
pub record PasswordParameters : Type 0 where
  pub memory : ℕ
  pub iterations : ℕ
  pub parallelism : ℕ
  pub salt_length : ℕ
  pub key_length : ℕ

-- currentPasswordParameters
abbrev pub current_password_parameters : PasswordParameters
current_password_parameters = record {
  memory = 19456;
  iterations = 2;
  parallelism = 1;
  salt_length = 16;
  key_length = 32;
}

-- golang.org/x/crypto/argon2: its Version and IDKey, which takes the password, the salt, the
-- iterations, the memory, the parallelism and the length of the key.
pub record Argon2 : Type 0 where
  pub version : ℕ
  pub id_key : Bytes → Bytes → ℕ → ℕ → ℕ → ℕ → Bytes

abbrev pub dollar : ℕ
dollar = 36

abbrev pub comma : ℕ
comma = 44

abbrev pub bytes_equal : Bytes → Bytes → Bool
bytes_equal [] [] = true
bytes_equal (a ∷ s) (b ∷ t) = nat_beq a b && bytes_equal s t
bytes_equal _ _ = false

-- The first field gets one more byte in front.
abbrev pub push_front : ℕ → List Bytes → List Bytes
push_front c [] = (c ∷ []) ∷ []
push_front c (field ∷ fields) = (c ∷ field) ∷ fields

-- strings.Split by a separator of one byte
unfoldable pub split : ℕ → Bytes → List Bytes
split separator [] = [] ∷ []
split separator (c ∷ s) =
    let rest = split separator s in if nat_beq c separator then [] ∷ rest else push_front c rest

-- strings.HasPrefix and strings.TrimPrefix
unfoldable pub trim_prefix : Bytes → Bytes → Option Bytes
trim_prefix [] s = some s
trim_prefix (c ∷ p) [] = none
trim_prefix (c ∷ p) (d ∷ s) = let rest = trim_prefix p s in if nat_beq c d then rest else none

-- strconv.ParseUint(s, 10, 32)
unfoldable pub parse_uint : Bytes → Option ℕ
parse_uint s =
    if is_empty s || not (all_digits s) || ltb 4294967295 (digits_value 0 s)
    then none
    else some (digits_value 0 s)

-- passwordHashComponentLength
unfoldable pub component_length : Bytes → ℕ
component_length [] = 0
component_length (b ∷ bytes) = (component_length bytes + 1) % 4294967296

-- parsePasswordParameter
unfoldable pub parse_password_parameter : Bytes → Bytes → Option ℕ
unfolding trim_prefix parse_uint
parse_password_parameter value prefix = elim (trim_prefix prefix value) [
  | none ↦ none
  | some number ↦ parse_uint number
]

-- `if err != nil || v < low || v > high { return …, errors.New(message) }`
abbrev pub within : Option ℕ → ℕ → ℕ → String → Result ℕ
within none low high message = err (plain message)
within (some v) low high message = if ltb v low || ltb high v then err (plain message) else ok v

abbrev pub sized : Option Bytes → String → Result Bytes
sized none message = err (plain message)
sized (some bytes) message =
    if ltb (length bytes) 16 || ltb 64 (length bytes) then err (plain message) else ok bytes

-- decodePasswordHash behind the splits: the three parameters, the salt and the output
unfoldable pub decode_fields :
    Bytes → Bytes → Bytes → Bytes → Bytes → Result (PasswordParameters × Bytes × Bytes)
unfolding component_length parse_password_parameter
decode_fields m t p salt_text hash_text = do
  memory ←
      within (parse_password_parameter m (codes "m=")) 8192 262144
        "password hash memory parameter is invalid"
  iterations ←
      within (parse_password_parameter t (codes "t=")) 1 10
        "password hash iteration parameter is invalid"
  parallelism ←
      within (parse_password_parameter p (codes "p=")) 1 16
        "password hash parallelism parameter is invalid"
  salt ← sized (decode64 salt_text) "password hash salt is invalid"
  hash ← sized (decode64 hash_text) "password hash output is invalid"
  ok (
    record {
      memory = memory % 4294967296;
      iterations = iterations % 4294967296;
      parallelism = parallelism % 256;
      salt_length = component_length salt;
      key_length = component_length hash;
    },
    salt,
    hash,
  )

abbrev pub same_parameters : PasswordParameters → PasswordParameters → Bool
same_parameters p q =
    nat_beq p.memory q.memory
    && nat_beq p.iterations q.iterations
    && nat_beq p.parallelism q.parallelism
    && nat_beq p.salt_length q.salt_length
    && nat_beq p.key_length q.key_length

abbrev pub password_work_saturated : Error
password_work_saturated = plain "password hashing capacity is saturated"

-- acquirePasswordWork: a send to a channel with room for four, with the slots that are taken
abbrev pub acquire_password_work : ℕ → Bool × ℕ
acquire_password_work slots = if ltb slots 4 then (true, slots + 1) else (false, slots)

-- releasePasswordWork
abbrev pub release_password_work : ℕ → ℕ
release_password_work slots = slots - 1

module _ (argon2 : Argon2) where
  -- encodePassword
  unfoldable pub encode_password : Bytes → Bytes → PasswordParameters → Bytes
  encode_password password salt parameters =
      codes "$argon2id$"
      ++ ((codes "v=" ++ nat_text argon2.version)
          ++ (codes "$"
              ++ ((codes "m=" ++ nat_text memory)
                  ++ (codes ","
                      ++ ((codes "t=" ++ nat_text iterations)
                          ++ (codes "," ++ (codes "p=" ++ nat_text parallelism)))))
              ++ (codes "$"
                  ++ (encode64 salt
                      ++ (codes "$"
                          ++ encode64 (
                              argon2.id_key password salt iterations memory parallelism
                                key_length))))))
    where
      open parameters use {memory, iterations, parallelism, key_length}

  unfoldable pub unsupported_hash : Result (PasswordParameters × Bytes × Bytes)
  unsupported_hash = err (plain "password hash is not a supported Argon2id value")

  unfoldable pub decode_values :
      List Bytes → Bytes → Bytes → Result (PasswordParameters × Bytes × Bytes)
  unfolding decode_fields
  decode_values (m ∷ t ∷ p ∷ []) salt hash = decode_fields m t p salt hash
  decode_values _ salt hash = err (plain "password hash parameters are malformed")

  unfoldable pub decode_parts : List Bytes → Result (PasswordParameters × Bytes × Bytes)
  unfolding split unsupported_hash decode_values
  decode_parts (front ∷ name ∷ version ∷ values ∷ salt ∷ hash ∷ []) =
      if not (is_empty front)
        || not (bytes_equal name (codes "argon2id"))
        || not (bytes_equal version (codes "v=" ++ nat_text argon2.version))
      then unsupported_hash
      else decode_values (split comma values) salt hash
  decode_parts _ = unsupported_hash

  -- decodePasswordHash
  unfoldable pub decode_password_hash : Bytes → Result (PasswordParameters × Bytes × Bytes)
  unfolding split decode_parts
  decode_password_hash encoded = decode_parts (split dollar encoded)

  -- verifyPassword, with the slots for password work that are taken
  unfoldable pub verify_password : Bytes → Bytes → ℕ → Result Bool × ℕ
  unfolding decode_password_hash
  verify_password password encoded slots = elim (decode_password_hash encoded) [
    | err e ↦ (err e, slots)
    | ok (parameters, salt, expected) ↦
        let (acquired, taken) = acquire_password_work slots in
        if acquired
        then (
          ok (
              bytes_equal
                (argon2.id_key password salt parameters.iterations parameters.memory
                  parameters.parallelism parameters.key_length)
                expected),
          release_password_work taken,
        )
        else (err password_work_saturated, taken)
  ]

  -- hashPassword, with the salt that rand.Read gives, or the text of its error
  unfoldable pub hash_password : Bytes → String ⊎ Bytes → ℕ → Result Bytes × ℕ
  unfolding encode_password
  hash_password password salt slots =
      let (acquired, taken) = acquire_password_work slots in
      if acquired
      then (
        elim salt [
          | inl message ↦ err (plain (join "generate password salt: " message))
          | inr bytes ↦ ok (encode_password password bytes current_password_parameters)
        ],
        release_password_work taken,
      )
      else (err password_work_saturated, taken)

  -- passwordHashNeedsUpgrade
  unfoldable pub password_hash_needs_upgrade : Bytes → Bool
  unfolding decode_password_hash
  password_hash_needs_upgrade encoded = elim (decode_password_hash encoded) [
    | err e ↦ true
    | ok (parameters, _, _) ↦ not (same_parameters parameters current_password_parameters)
  ]
