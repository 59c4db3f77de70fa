-- ===== src/Api/Session.antt =====
-- internal/api/auth.go: login and logout, on the tables of the store. The cryptography, the random source and
-- the clock are parameters; a time is a number of nanoseconds.
use aliasdeck.Prelude.{ℕ, ◌+◌, not, [], Option, none, some, if◌then◌else◌}
use aliasdeck.Prelude.{Result, ok, err}
use aliasdeck.Prelude.{◌*◌}
use aliasdeck.Text.{Bytes, codes}
use aliasdeck.Domain.Alias.{Time}
use aliasdeck.Auth.Token.{Token, MintedToken, mint, token_kind_session}
use aliasdeck.Auth.Middleware.{Subject}
use aliasdeck.Auth.Password.{Crypto, verify_password, try_acquire}
use aliasdeck.Store.Tokens.{create_token, revoke}
use aliasdeck.Store.Operators.{Operator, find_operator}
use aliasdeck.Store.Accounts.{Tables}
use aliasdeck.Api.Errors.{ApiError, store_error}

abbrev pub session_lifetime : ℕ
session_lifetime = 24 * 3600 * 1000000000

abbrev pub invalid_credentials : ApiError
invalid_credentials = record { status = 401; code = codes "invalid_credentials" }

abbrev pub no_capacity : ApiError
no_capacity = record { status = 503; code = codes "timeout" }

abbrev pub internal_error : ApiError
internal_error = record { status = 500; code = codes "internal" }

pub record LoginResponse : Type 0 where
  pub token : Bytes
  pub expires_at : Time

-- What a login draws: the id of the row, and the two texts of the token.
pub record Draws : Type 0 where
  pub fresh : Bytes
  pub lookup : Option Bytes
  pub secret : Option Bytes

abbrev pub session_token : Operator → MintedToken → Time → Token
session_token op minted now = record {
  id = [];
  lookup = minted.lookup;
  kind = token_kind_session;
  subject_id = op.id;
  secret_hash = minted.secret_hash;
  profile_ids = [];
  created_at = now;
  expires_at = now + session_lifetime;
  used_at = 0;
  revoked_at = 0;
}

-- `handleLogin` behind the password.
unfoldable pub open_session :
    (Bytes → Bytes) → Draws → Time → Operator → Tables → Result ApiError LoginResponse × Tables
unfolding mint create_token store_error
open_session hash_secret draws now op w =
    elim (mint hash_secret token_kind_session draws.lookup draws.secret) [
      | err e ↦ (err internal_error, w)
      | ok minted ↦
          let (failed, db) = create_token draws.fresh now (session_token op minted now) w.db in
          elim failed [
            | some e ↦ (err (store_error e), record w { db = db })
            | none ↦ (
              ok (record { token = minted.wire; expires_at = now + session_lifetime }),
              record w { db = db },
            )
          ]
    ]

-- `handleLogin`, where `held` verifications are running.
unfoldable pub handle_login :
    Crypto
    → (Bytes → Bytes)
    → Draws
    → Time
    → ℕ
    → Bytes
    → Bytes
    → Tables
    → Result ApiError LoginResponse × Tables
unfolding find_operator try_acquire verify_password open_session
handle_login crypto hash_secret draws now held username password w =
    elim (find_operator username w.operators) [
      | none ↦ (err invalid_credentials, w)
      | some op ↦
          if not (try_acquire held).0
          then (err no_capacity, w)
          else elim (verify_password crypto password op.password_hash) [
            | some e ↦ (err invalid_credentials, w)
            | none ↦ open_session hash_secret draws now op w
          ]
    ]

-- `handleLogout`: `none` is the status 204.
unfoldable pub handle_logout : Subject → Time → Tables → Option ApiError × Tables
unfolding revoke store_error
handle_logout subj now w =
    let (failed, db) = revoke subj.token_id now w.db in
    elim failed [
      | some e ↦ (some (store_error e), record w { db = db })
      | none ↦ (none, record w { db = db })
    ]
