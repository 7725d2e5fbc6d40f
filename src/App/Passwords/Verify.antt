-- ===== src/App/Passwords/Verify.antt =====
-- Hashing, verification and the upgrade of a stored hash.
use Prim.Native.Nat.{ℕ, ◌+◌, ◌-◌, ◌<◌}
use mathlib.Core.Bool.{true, false}
use mathlib.Core.Logic.{inr}
use mathlib.Core.Path.{◌≡◌, refl}
use native.Mathlib.Omega.{arith}
use gezerah.Base.Lists.{All, length}
use gezerah.Errors.{ok}
use gezerah.App.Base64.{IsByte}
use gezerah.App.Passwords.{
  Bytes, current_password_parameters, Argon2, encode_password, verify_password, hash_password,
  password_hash_needs_upgrade, acquire_password_work,
}
use gezerah.App.Passwords.Texts.{bytes_equal_refl}
use gezerah.App.Passwords.Roundtrip.{DerivesKeys, decode_password_hash-encode_password}

module _ (argon2 : Argon2) (documented : DerivesKeys argon2) where
  -- A password that is hashed while a slot is free, with a salt of 16 bytes, gives a stored hash
  -- against which the password verifies, which wants no upgrade, and every slot is given back.
  pub verify_password-hash_password :
      (password salt : Bytes) (slots : ℕ)
      → slots < 4
      → length salt ≡ 16
      → All IsByte salt
      → (stored : Bytes) × (hash_password argon2 password (inr salt) slots ≡ (ok stored, slots))
        × (verify_password argon2 password stored slots ≡ (ok true, slots))
        × (password_hash_needs_upgrade argon2 stored ≡ false)
  unfolding hash_password verify_password password_hash_needs_upgrade
  verify_password-hash_password password salt slots free size bytes =
      let stored = encode_password argon2 password salt current_password_parameters in
      let acquired : acquire_password_work slots ≡ (true, slots + 1) = ground (arith, free) in
      let back : slots + 1 - 1 ≡ slots = omega arith in
      let decoded =
        decode_password_hash-encode_password argon2 documented password salt
          current_password_parameters (ground arith) size bytes in
      (
        stored,
        rw (acquired, back, hash_password) refl,
        rw (decoded, acquired, back, bytes_equal_refl _, verify_password) refl,
        rw (decoded, password_hash_needs_upgrade) refl,
      )
