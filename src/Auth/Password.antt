-- ===== src/Auth/Password.antt =====
-- internal/auth: `validatePasswordStrength` of reset.go, password.go's `VerifyPassword`, and
-- password_limiter.go. `fmt.Sscanf`, base64 and argon2 are parameters.
use aliasdeck.Prelude.{
  ℕ, zero, suc, ◌+◌, Bool, true, false, ◌&&◌, ◌||◌, not, List, [], ◌∷◌, Option, none, some, length,
  is_empty, ltb, ◌==◌, if◌then◌else◌, ◌>>=◌,
}
use aliasdeck.Prelude.{◌*◌}
use aliasdeck.Text.{Bytes, codes, same, split}
use aliasdeck.Utf8.{trim_space}

abbrev pub min_admin_password_length : ℕ
min_admin_password_length = 12

pub data PasswordError : Type 0 where
  weak_admin_password : PasswordError
  password_mismatch : PasswordError
  malformed_password_hash : PasswordError

-- `validatePasswordStrength`: `none` is the error nil.
unfoldable pub validate_password_strength : Bytes → Option PasswordError
unfolding trim_space
validate_password_strength password =
    if is_empty (trim_space password)
    then some weak_admin_password
    else if ltb (length password) min_admin_password_length
    then some weak_admin_password
    else none

abbrev pub argon2_max_memory : ℕ
argon2_max_memory = 8 * (64 * 1024)

abbrev pub argon2_max_time : ℕ
argon2_max_time = 8 * 1

abbrev pub argon2_max_threads : ℕ
argon2_max_threads = 8 * 4

pub record Cost : Type 0 where
  pub memory : ℕ
  pub time : ℕ
  pub threads : ℕ

-- The guards on the parameters of a stored hash.
unfoldable pub is_bounded : Cost → Bool
is_bounded c =
    not (c.memory == 0 || c.time == 0 || c.threads == 0)
    && not (
        ltb argon2_max_memory c.memory
        || ltb argon2_max_time c.time
        || ltb argon2_max_threads c.threads)

-- The packages that `VerifyPassword` calls.
pub record Crypto : Type 0 where
  pub scan_version : Bytes → Option ℕ
  pub scan_cost : Bytes → Option Cost
  pub decode_base64 : Bytes → Option Bytes
  pub id_key : Bytes → Bytes → Cost → ℕ → Bytes

-- A decoded field, refused when it is empty.
unfoldable pub decode_field : Crypto → Bytes → Option Bytes
decode_field crypto s = do b ← crypto.decode_base64 s; (if is_empty b then none else some b)

-- The stored hash: its cost, salt and key.
unfoldable pub read_hash : Crypto → List Bytes → Option (Cost × Bytes × Bytes)
unfolding is_bounded decode_field
read_hash crypto (format ∷ version ∷ cost ∷ salt ∷ key ∷ []) =
    if not (same format (codes "argon2id")) then none else (do
      v ← crypto.scan_version version
      c ← crypto.scan_cost cost
      (if not (is_bounded c)
          then none
          else (do s ← decode_field crypto salt; k ← decode_field crypto key; some (c, s, k))))
read_hash crypto _ = none

-- `VerifyPassword`: `none` is the answer true.
unfoldable pub verify_password : Crypto → Bytes → Bytes → Option PasswordError
unfolding read_hash
verify_password crypto password encoded = elim (read_hash crypto (split b'$' encoded)) [
  | none ↦ some malformed_password_hash
  | some (c, salt, want) ↦
      if same (crypto.id_key password salt c (length want)) want
      then none
      else some password_mismatch
]

abbrev pub password_verification_concurrency : ℕ
password_verification_concurrency = 4

-- `PasswordLimiter`, by the number of values in its channel.
unfoldable pub try_acquire : ℕ → Bool × ℕ
try_acquire held =
    if ltb held password_verification_concurrency then (true, held + 1) else (false, held)

-- `Release`, which blocks on an empty channel.
unfoldable pub release : ℕ → Option ℕ
release zero = none
release (suc held) = some held
