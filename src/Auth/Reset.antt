-- ===== src/Auth/Reset.antt =====
-- internal/auth/reset.go and bootstrap.go. The store, the operating system and the random source are
-- parameters: `Accounts`, `Disk`, and the texts that hashing and drawing give.
use aliasdeck.Prelude.{[], ◌++◌, Option, none, some, is_empty, ltb, if◌then◌else◌}
use aliasdeck.Prelude.{Result, ok, err}
use aliasdeck.Text.{Bytes, codes}
use aliasdeck.Utf8.{trim_space}
use aliasdeck.Apply.Atomic.{Disk, OsError, and_then, and_remove, write_sync_close}
use aliasdeck.Auth.Token.{token_kind_session}
use aliasdeck.Auth.Password.{PasswordError, validate_password_strength}
use aliasdeck.Domain.Alias.{Time}
use aliasdeck.Store.Errors.{StoreError, not_found, conflict, capacity, invalid_reference, failure}
use aliasdeck.Store.Operators.{Operator}
use aliasdeck.Store.Accounts.{Accounts}

pub data AccountError : Type 0 where
  unknown_operator : AccountError
  refused_password : PasswordError → AccountError
  hash_failure : AccountError
  no_password : AccountError
  account_store : StoreError → AccountError
  sessions_survived_reset : AccountError
  account_file : OsError → AccountError

-- `errors.Is(err, store.ErrNotFound)`
unfoldable pub update_error : StoreError → AccountError
update_error not_found = unknown_operator
update_error conflict = account_store conflict
update_error capacity = account_store capacity
update_error invalid_reference = account_store invalid_reference
update_error failure = account_store failure

-- `ResetPassword` behind the hash.
unfoldable pub replace_hash :
    {W : Type 0} → Accounts W → Time → Bytes → Bytes → W → Option AccountError × W
unfolding update_error
replace_hash accounts now username hash w =
    let (updated, w1) = accounts.update_hash username hash w in
    elim updated [
      | err e ↦ (some (update_error e), w1)
      | ok operator ↦
          let (failed, w2) = accounts.revoke_all token_kind_session operator.id now w1 in
          elim failed [ some e ↦ (some sessions_survived_reset, w2) | none ↦ (none, w2) ]
    ]

-- `ResetPassword`: `none` is the error nil.
unfoldable pub reset_password :
    {W : Type 0}
    → (Bytes → Option Bytes)
    → Accounts W
    → Time
    → Bytes
    → Bytes
    → W
    → Option AccountError × W
unfolding replace_hash trim_space validate_password_strength
reset_password hash_password accounts now username password w =
    if is_empty (trim_space username)
    then (some unknown_operator, w)
    else elim (validate_password_strength password) [
      | some e ↦ (some (refused_password e), w)
      | none ↦ elim (hash_password password) [
        | none ↦ (some hash_failure, w)
        | some hash ↦ replace_hash accounts now username hash w
      ]
    ]

-- `writeBootstrapPasswordFile`
unfoldable pub write_bootstrap_password_file :
    {W : Type 0} → Disk W → Bytes → Bytes → W → Result OsError Unit × W
unfolding and_then and_remove write_sync_close
write_bootstrap_password_file disk path password w =
    and_then (disk.mkdir_all (disk.dir path) w) (λ _ w1.
      and_then (disk.create_temp (disk.dir path) (codes ".bootstrap-password.*.tmp") w1) (λ tmp w2.
        and_remove disk tmp (
          and_then (write_sync_close disk tmp (password ++ codes "\n") 0o600 w2)
            (λ _ w3. disk.rename tmp path w3))))

-- `deliverGeneratedPassword`; `print` is the write to `out`, of the password or of the file's path.
unfoldable pub deliver_generated_password :
    {W : Type 0}
    → Disk W
    → (Bytes → W → Result OsError Unit × W)
    → Bytes
    → Bytes
    → W
    → Result OsError Unit × W
unfolding write_bootstrap_password_file and_then
deliver_generated_password disk print path password w =
    if is_empty path
    then print password w
    else and_then (write_bootstrap_password_file disk path password w) (λ _ w1. print path w1)

abbrev pub bootstrap_username : Bytes
bootstrap_username = codes "admin"

abbrev pub bootstrap_operator : Bytes → Operator
bootstrap_operator hash = record {
  id = [];
  username = bootstrap_username;
  password_hash = hash;
  created_at = 0;
  updated_at = 0;
}

-- The last step of `Bootstrap`.
unfoldable pub create_admin : {W : Type 0} → Accounts W → Bytes → W → Option AccountError × W
create_admin accounts hash w =
    let (created, w1) = accounts.create (bootstrap_operator hash) w in
    elim created [ err e ↦ (some (account_store e), w1) | ok operator ↦ (none, w1) ]

-- `Bootstrap` with the password that was generated: it is delivered before the operator is created.
unfoldable pub bootstrap_generated :
    {W : Type 0}
    → Disk W
    → (Bytes → W → Result OsError Unit × W)
    → Accounts W
    → Bytes
    → Bytes
    → Bytes
    → W
    → Option AccountError × W
unfolding deliver_generated_password create_admin
bootstrap_generated disk print accounts path password hash w =
    let (delivered, w1) = deliver_generated_password disk print path password w in
    elim delivered [ err e ↦ (some (account_file e), w1) | ok u ↦ create_admin accounts hash w1 ]

-- `Bootstrap`, with the password of the environment and the one that `GeneratePassword` draws.
unfoldable pub bootstrap :
    {W : Type 0}
    → (Bytes → Option Bytes)
    → Disk W
    → (Bytes → W → Result OsError Unit × W)
    → Accounts W
    → Bytes
    → Option Bytes
    → Bytes
    → W
    → Option AccountError × W
unfolding bootstrap_generated create_admin validate_password_strength
bootstrap hash_password disk print accounts from_env drawn path w = elim (accounts.count w) [
  | err e ↦ (some (account_store e), w)
  | ok count ↦
      if ltb 0 count
      then (none, w)
      else if is_empty from_env
      then elim drawn [
        | none ↦ (some no_password, w)
        | some password ↦ elim (hash_password password) [
          | none ↦ (some hash_failure, w)
          | some hash ↦ bootstrap_generated disk print accounts path password hash w
        ]
      ]
      else elim (validate_password_strength from_env) [
        | some e ↦ (some (refused_password e), w)
        | none ↦ elim (hash_password from_env) [
          | none ↦ (some hash_failure, w)
          | some hash ↦ create_admin accounts hash w
        ]
      ]
]
