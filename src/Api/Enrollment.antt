-- ===== src/Api/Enrollment.antt =====
-- internal/api/auth.go: the creation of an enrollment token by an operator. A time is a number of nanoseconds.
use aliasdeck.Prelude.{ℕ, ◌+◌, ◌-◌, List, [], none, some, ltb, ◌==◌, if◌then◌else◌}
use aliasdeck.Prelude.{Result, ok, err}
use aliasdeck.Prelude.{◌*◌, ◌%◌}
use aliasdeck.Text.{Bytes}
use aliasdeck.Domain.Alias.{Time}
use aliasdeck.Watch.{one_second}
use aliasdeck.Auth.Token.{Token, MintedToken, mint, token_kind_enrollment}
use aliasdeck.Store.Tokens.{Database, create_token}
use aliasdeck.Api.Errors.{ApiError, store_error}
use aliasdeck.Api.Session.{Draws, internal_error}

abbrev pub default_enrollment_ttl : ℕ
default_enrollment_ttl = 15 * 60 * one_second

-- The field `TTLSeconds` is a 64-bit integer, and is 0 here where it is not positive.
pub record EnrollmentTokenRequest : Type 0 where
  pub profile_ids : List Bytes
  pub ttl_seconds : ℕ

pub record EnrollmentTokenResponse : Type 0 where
  pub token : Bytes
  pub expires_at : Time

-- One more than the greatest `time.Duration`.
abbrev pub int64_limit : ℕ
int64_limit = 9223372036854775808

-- `now.Add(ttl)`, where `time.Duration(in.TTLSeconds) * time.Second` wraps around in a signed 64-bit integer.
unfoldable pub enrollment_expiry : Time → ℕ → Time
enrollment_expiry now seconds =
    let ttl = (seconds * one_second) % (2 * int64_limit) in
    if seconds == 0
    then now + default_enrollment_ttl
    else if ltb ttl int64_limit
    then now + ttl
    else now - (2 * int64_limit - ttl)

abbrev pub enrollment_token : List Bytes → MintedToken → Time → Time → Token
enrollment_token profiles minted now expires = record {
  id = [];
  lookup = minted.lookup;
  kind = token_kind_enrollment;
  subject_id = [];
  secret_hash = minted.secret_hash;
  profile_ids = profiles;
  created_at = now;
  expires_at = expires;
  used_at = 0;
  revoked_at = 0;
}

-- `handleEnrollmentTokensCreate`
unfoldable pub handle_enrollment :
    (Bytes → Bytes)
    → Draws
    → Time
    → EnrollmentTokenRequest
    → Database
    → Result ApiError EnrollmentTokenResponse × Database
unfolding mint create_token store_error enrollment_expiry
handle_enrollment hash_secret draws now input db =
    elim (mint hash_secret token_kind_enrollment draws.lookup draws.secret) [
      | err e ↦ (err internal_error, db)
      | ok minted ↦
          let expires = enrollment_expiry now input.ttl_seconds in
          let (failed, db') =
            create_token draws.fresh now (enrollment_token input.profile_ids minted now expires)
              db in
          elim failed [
            | some e ↦ (err (store_error e), db')
            | none ↦ (ok (record { token = minted.wire; expires_at = expires }), db')
          ]
    ]
