-- ===== src/Auth/Setup.antt =====
-- internal/auth/setup.go: `completeSetup`. The operating system, the hash functions and the store are
-- parameters: `SetupFiles`, `sha256` and `hash_password`, and `Accounts`.
use aliasdeck.Prelude.{
  Bool, ◌||◌, not, [], ◌++◌, Option, none, some, length, is_empty, ltb, if◌then◌else◌,
}
use aliasdeck.Prelude.{Result, ok, err}
use aliasdeck.Text.{Bytes, codes, same}
use aliasdeck.Utf8.{trim_space}
use aliasdeck.Apply.Atomic.{OsError, not_exist, os_failure, unsafe_destination}
use aliasdeck.Auth.Password.{min_admin_password_length}
use aliasdeck.Store.Errors.{StoreError, not_found, conflict, capacity, invalid_reference, failure}
use aliasdeck.Store.Operators.{Operator}
use aliasdeck.Store.Accounts.{Accounts}

-- The calls of the package os; `create_new` opens with O_EXCL.
pub record SetupFiles (W : Type 0) : Type 0 where
  pub exists : Bytes → W → Bool
  pub create_new : Bytes → W → Result OsError Unit × W
  pub read_file : Bytes → W → Result OsError Bytes
  pub rename : Bytes → Bytes → W → Result OsError Unit × W
  pub remove : Bytes → W → W

pub data SetupError : Type 0 where
  setup_disabled : SetupError
  invalid_setup_credential : SetupError
  missing_username : SetupError
  weak_setup_password : SetupError
  mismatched_setup_password : SetupError
  setup_hash : SetupError
  setup_store : StoreError → SetupError
  setup_file : OsError → SetupError

-- The form of the setup page.
pub record SetupForm : Type 0 where
  pub username : Bytes
  pub password : Bytes
  pub confirmation : Bytes

abbrev pub new_operator : Bytes → Bytes → Operator
new_operator username hash = record {
  id = [];
  username = username;
  password_hash = hash;
  created_at = 0;
  updated_at = 0;
}

-- `errors.Is(err, store.ErrConflict)`
unfoldable pub create_error : StoreError → SetupError
create_error conflict = setup_disabled
create_error not_found = setup_store not_found
create_error capacity = setup_store capacity
create_error invalid_reference = setup_store invalid_reference
create_error failure = setup_store failure

-- The rename of the credential, where `os.IsNotExist` is no error.
unfoldable pub rename_error : Result OsError Unit → Option SetupError
rename_error (ok u) = none
rename_error (err not_exist) = none
rename_error (err (os_failure m)) = some (setup_file (os_failure m))
rename_error (err unsafe_destination) = some (setup_file unsafe_destination)

-- The credential is renamed and removed.
unfoldable pub consume_credential : {W : Type 0} → SetupFiles W → Bytes → W → Option SetupError × W
unfolding rename_error
consume_credential files path w =
    let (renamed, w1) = files.rename path (path ++ codes ".consumed") w in
    elim (rename_error renamed) [
      | some e ↦ (some e, w1)
      | none ↦ (none, files.remove (path ++ codes ".consumed") w1)
    ]

-- The checks on the form.
unfoldable pub check_form : SetupForm → Option SetupError
unfolding trim_space
check_form form =
    if is_empty (trim_space form.username)
    then some missing_username
    else if is_empty (trim_space form.password)
        || ltb (length form.password) min_admin_password_length
    then some weak_setup_password
    else if not (same form.password form.confirmation)
    then some mismatched_setup_password
    else none

-- The check of the credential: `none` is an equal one. Without `requireCredential` nothing is read.
unfoldable pub check_credential :
    {W : Type 0} → (Bytes → Bytes) → SetupFiles W → Bytes → Option Bytes → W → Option SetupError
unfolding trim_space
check_credential sha256 files path none w = none
check_credential sha256 files path (some credential) w = elim (files.read_file path w) [
  | err e ↦ some setup_disabled
  | ok want ↦
      if not (same (sha256 (trim_space credential)) (sha256 (trim_space want)))
      then some invalid_setup_credential
      else none
]

-- From the count of operators on.
unfoldable pub create_first :
    {W : Type 0}
    → (Bytes → Option Bytes)
    → SetupFiles W
    → Accounts W
    → Bytes
    → SetupForm
    → W
    → Option SetupError × W
unfolding create_error consume_credential trim_space
create_first hash_password files accounts path form w = elim (accounts.count w) [
  | err e ↦ (some (setup_store e), w)
  | ok count ↦
      if ltb 0 count then (some setup_disabled, w) else elim (hash_password form.password) [
        | none ↦ (some setup_hash, w)
        | some hash ↦
            let (created, w1) = accounts.create (new_operator (trim_space form.username) hash) w in
            elim created [
              | err e ↦ (some (create_error e), w1)
              | ok operator ↦ consume_credential files path w1
            ]
      ]
]

-- The checks, and then the operator, under the lock.
unfoldable pub locked_setup :
    {W : Type 0}
    → (Bytes → Bytes)
    → (Bytes → Option Bytes)
    → SetupFiles W
    → Accounts W
    → Bytes
    → Option Bytes
    → SetupForm
    → W
    → Option SetupError × W
unfolding check_credential check_form create_first
locked_setup sha256 hash_password files accounts path credential form w =
    elim (check_credential sha256 files path credential w) [
      | some e ↦ (some e, w)
      | none ↦ elim (check_form form) [
        | some e ↦ (some e, w)
        | none ↦ create_first hash_password files accounts path form w
      ]
    ]

-- `completeSetup`; `CompleteLocalSetup` passes no credential. The deferred `os.Remove` ends the lock.
unfoldable pub complete_setup :
    {W : Type 0}
    → (Bytes → Bytes)
    → (Bytes → Option Bytes)
    → SetupFiles W
    → Accounts W
    → Bytes
    → Option Bytes
    → SetupForm
    → W
    → Option SetupError × W
unfolding locked_setup
complete_setup sha256 hash_password files accounts path credential form w =
    if is_empty path || not (files.exists path w)
    then (some setup_disabled, w)
    else let (locked, w1) = files.create_new (path ++ codes ".lock") w in
      elim locked [
        | err e ↦ (some setup_disabled, w1)
        | ok u ↦
            let (r, w2) =
              locked_setup sha256 hash_password files accounts path credential form w1 in
            (r, files.remove (path ++ codes ".lock") w2)
      ]
