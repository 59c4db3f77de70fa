-- ===== src/Api/Register.antt =====
-- internal/api/auth.go: the registration of a device with an enrollment token, on the tables of the store.
use aliasdeck.Prelude.{not, [], none, some, if◌then◌else◌}
use aliasdeck.Prelude.{Result, ok, err}
use aliasdeck.Text.{Bytes}
use aliasdeck.Domain.Shell.{Platform, Shell, platform_valid, shell_valid}
use aliasdeck.Domain.Alias.{Device, Time}
use aliasdeck.Auth.Token.{
  Token, MintedToken, AuthError, unknown_token_kind, no_randomness, malformed_token,
  wrong_token_kind, revoked_token, expired_token, wrong_secret, store_failure, EnrollmentTokens,
  mint, consume_enrollment, token_kind_device,
}
use aliasdeck.Auth.Middleware.{bearer_token}
use aliasdeck.Store.Errors.{StoreError}
use aliasdeck.Store.Tokens.{Database, by_lookup, create_token, consume_enrollment_row}
use aliasdeck.Api.Errors.{ApiError, invalid_request, unauthorized_device, store_error}
use aliasdeck.Api.Session.{Draws, internal_error}

unfoldable pub of_store : {A : Type 0} → Result StoreError A → Result AuthError A
of_store (ok a) = ok a
of_store (err e) = err (store_failure e)

-- `store.Tokens()` as `auth.ConsumeEnrollment` sees it; `fresh` is the id of the next device.
unfoldable pub table_tokens : Bytes → Time → EnrollmentTokens Database Device
unfolding by_lookup consume_enrollment_row of_store
table_tokens fresh now = record {
  by_lookup = λ lookup db. of_store (by_lookup db lookup);
  consume = λ lookup dev db.
      let (r, db') = consume_enrollment_row fresh lookup dev now db in (of_store r, db');
}

-- The answer to an error of `auth.ConsumeEnrollment`.
unfoldable pub register_error : AuthError → ApiError
unfolding store_error
register_error malformed_token = unauthorized_device
register_error wrong_token_kind = unauthorized_device
register_error wrong_secret = unauthorized_device
register_error (store_failure e) = store_error e
register_error unknown_token_kind = internal_error
register_error no_randomness = internal_error
register_error revoked_token = internal_error
register_error expired_token = internal_error

pub record RegisterRequest : Type 0 where
  pub name : Bytes
  pub platform : Platform
  pub shell : Shell
  pub client_version : Bytes

pub record DeviceTokenResponse : Type 0 where
  pub device_id : Bytes
  pub device_token : Bytes

unfoldable pub new_device : RegisterRequest → Device
new_device input = record {
  id = [];
  name = input.name;
  hostname = [];
  platform = input.platform;
  shell = input.shell;
  architecture = [];
  profile_ids = [];
  last_seen_at = none;
  last_sync_at = none;
  client_version = input.client_version;
  revoked_at = none;
}

abbrev pub device_row_token : Bytes → MintedToken → Time → Token
device_row_token id minted now = record {
  id = [];
  lookup = minted.lookup;
  kind = token_kind_device;
  subject_id = id;
  secret_hash = minted.secret_hash;
  profile_ids = [];
  created_at = now;
  expires_at = 0;
  used_at = 0;
  revoked_at = 0;
}

-- The token of a device that was registered; the device stays where this fails.
unfoldable pub issue_token :
    (Bytes → Bytes)
    → Draws
    → Time
    → Bytes
    → Database
    → Result ApiError DeviceTokenResponse × Database
unfolding mint create_token
issue_token hash_secret draws now id db =
    elim (mint hash_secret token_kind_device draws.lookup draws.secret) [
      | err e ↦ (err internal_error, db)
      | ok minted ↦
          let (failed, db') = create_token draws.fresh now (device_row_token id minted now) db in
          elim failed [
            | some e ↦ (err internal_error, db')
            | none ↦ (ok (record { device_id = id; device_token = minted.wire }), db')
          ]
    ]

-- `handleDevicesRegister` with a bearer token.
unfoldable pub register_with :
    (Bytes → Bytes)
    → Bytes
    → Draws
    → Time
    → RegisterRequest
    → Bytes
    → Database
    → Result ApiError DeviceTokenResponse × Database
unfolding consume_enrollment table_tokens register_error new_device issue_token
register_with hash_secret fresh draws now input wire db =
    if not (platform_valid input.platform)
    then (err invalid_request, db)
    else if not (shell_valid input.shell)
    then (err invalid_request, db)
    else let (r, db') =
        consume_enrollment hash_secret (table_tokens fresh now) wire (new_device input) db in
      elim r [
        | err e ↦ (err (register_error e), db')
        | ok dev ↦ issue_token hash_secret draws now dev.id db'
      ]

-- `handleDevicesRegister`
unfoldable pub handle_register :
    (Bytes → Bytes)
    → Bytes
    → Draws
    → Time
    → RegisterRequest
    → Bytes
    → Database
    → Result ApiError DeviceTokenResponse × Database
unfolding bearer_token register_with
handle_register hash_secret fresh draws now input header db = elim (bearer_token header) [
  | none ↦ (err unauthorized_device, db)
  | some wire ↦ register_with hash_secret fresh draws now input wire db
]
