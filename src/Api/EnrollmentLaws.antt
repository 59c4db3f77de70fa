-- ===== src/Api/EnrollmentLaws.antt =====
-- An enrollment token that an operator created can be registered with.
use aliasdeck.Prelude.{ltb, ◌==◌, refl}
use aliasdeck.Prelude.{
  ℕ, ◌+◌, ◌≤◌, ◌<◌, ◌≡◌, sym, ap, ◌∙◌, inl, inr, true, false, some, is_empty, Option-cases, arith,
}
use aliasdeck.Prelude.{ok, Result-cases}
use aliasdeck.Prelude.{◌*◌}
use mathlib.Core.Path.{subst}
use aliasdeck.Text.{Bytes, same}
use aliasdeck.Text.Search.{Lacks}
use aliasdeck.Text.Equality.{same_iff, same_refl}
use aliasdeck.Domain.Alias.{Time, Device}
use aliasdeck.Watch.{one_second}
use aliasdeck.Auth.Token.{
  Token, MintedToken, ParsedToken, mint, parse, verify_secret, consume_enrollment,
  token_kind_enrollment,
}
use aliasdeck.Auth.TokenLaws.{parse-mint}
use aliasdeck.Store.Tokens.{
  Database, by_lookup, is_consumable, create_token, consume_enrollment_row,
}
use aliasdeck.Api.Session.{Draws}
use aliasdeck.Api.SessionLaws.{created_row, by_lookup-create_token, mint-drawn}
use aliasdeck.Api.Register.{of_store, table_tokens}
use aliasdeck.Api.Enrollment.{
  EnrollmentTokenRequest, EnrollmentTokenResponse, enrollment_expiry, enrollment_token,
  handle_enrollment,
}

-- The lifetime that was asked for, up to 9223372036 seconds.
enrollment_expiry-asked :
    (now seconds : ℕ)
    → 0 < seconds
    → seconds ≤ 9223372036
    → enrollment_expiry now seconds ≡ now + seconds * one_second
unfolding enrollment_expiry
enrollment_expiry-asked now seconds p b = grind arith

-- What stands behind an enrollment token that was created.
pub record IsInvited (hash_secret : Bytes → Bytes) (draws : Draws) (now : Time)
    (input : EnrollmentTokenRequest) (r : EnrollmentTokenResponse) (db' : Database) : Type 0 where
  pub minted : MintedToken
  pub mints : mint hash_secret token_kind_enrollment draws.lookup draws.secret ≡ ok minted
  pub kept :
      by_lookup db' minted.lookup
      ≡ ok (
          created_row draws.fresh now (
            enrollment_token input.profile_ids minted now
              (enrollment_expiry now input.ttl_seconds)))
  pub answer :
      r ≡ record { token = minted.wire; expires_at = enrollment_expiry now input.ttl_seconds }

handle_enrollment-IsInvited :
    (hash_secret : Bytes → Bytes) (draws : Draws) (now : Time) (input : EnrollmentTokenRequest)
    (db : Database) (r : EnrollmentTokenResponse) (db' : Database)
    → handle_enrollment hash_secret draws now input db ≡ (ok r, db')
    → IsInvited hash_secret draws now input r db'
unfolding handle_enrollment
handle_enrollment-IsInvited hash_secret draws now input db r db' h =
    elim (Result-cases (mint hash_secret token_kind_enrollment draws.lookup draws.secret)) [
      | inl (x, e) ↦ ground (arith, e, h)
      | inr (minted, e) ↦
          let row =
            enrollment_token input.profile_ids minted now
              (enrollment_expiry now input.ttl_seconds) in
          let made = create_token draws.fresh now row db in
          elim (Option-cases made.0) [
            | inr (x, f) ↦ ground (arith, e, f, h)
            | inl f ↦
                let after : made.1 ≡ db' = ground (arith, e, f, h) in
                record {
                  minted = minted;
                  mints = e;
                  kept = by_lookup-create_token draws.fresh now row db db' (λ i. (f i, after i));
                  answer = ground (arith, e, f, h);
                }
          ]
    ]

-- What `ConsumeEnrollment` does with a token that parses and whose secret is that of the stored row.
consume_enrollment-stored :
    (hash_secret : Bytes → Bytes) (fresh wire : Bytes) (now : Time) (t : ParsedToken) (tok : Token)
    (dev : Device) (db : Database)
    → parse wire ≡ some t
    → same t.kind token_kind_enrollment ≡ true
    → by_lookup db t.lookup ≡ ok tok
    → verify_secret hash_secret t.secret tok.secret_hash ≡ true
    → consume_enrollment hash_secret (table_tokens fresh now) wire dev db
      ≡ (let (made, db') = consume_enrollment_row fresh t.lookup dev now db in (of_store made, db'))
unfolding consume_enrollment table_tokens of_store
consume_enrollment-stored hash_secret fresh wire now t tok dev db p k f v =
    ground (arith, p, k, f, v)

-- Whether a row can be consumed, where it is unused and expires later than it was made.
expires_later :
    (lookup : Bytes) (time now seconds : ℕ) (t : Token)
    → same t.lookup lookup ≡ true
    → t.kind ≡ token_kind_enrollment
    → t.used_at ≡ 0
    → t.revoked_at ≡ 0
    → t.expires_at ≡ now + seconds * one_second
    → 0 < seconds
    → is_consumable lookup time t ≡ ltb time (now + seconds * one_second)
unfolding is_consumable
expires_later lookup time now seconds t l k u r e p =
    let kind : same t.kind token_kind_enrollment ≡ true =
      (same_iff t.kind token_kind_enrollment).1 k in
    let some_time : t.expires_at == 0 ≡ false = ground (arith, e, p) in
    rw (l, kind, u, r, some_time, e) refl

-- An enrollment token that was created with a lifetime of one to 9223372036 seconds is answered and stored with
-- an expiry that much later and the profiles asked for, and the stored row can be consumed exactly before that.
-- `ConsumeEnrollment` gives for it what the store's transaction gives for any device, where the lookup that was
-- drawn has no dot and neither text is empty.
pub handle_enrollment-consume_enrollment :
    (hash_secret : Bytes → Bytes) (row_id lookup secret : Bytes) (now : Time)
    (input : EnrollmentTokenRequest) (db : Database) (r : EnrollmentTokenResponse) (db' : Database)
    (fresh : Bytes) (dev : Device) (time : Time)
    → handle_enrollment hash_secret
        (record { fresh = row_id; lookup = some lookup; secret = some secret })
        now
        input
        db
      ≡ (ok r, db')
    → Lacks b'.' lookup
    → is_empty lookup ≡ false
    → is_empty secret ≡ false
    → 0 < input.ttl_seconds
    → input.ttl_seconds ≤ 9223372036
    → (tok : Token) × (r.expires_at ≡ now + input.ttl_seconds * one_second)
      × (by_lookup db' lookup ≡ ok tok)
      × (tok.expires_at ≡ r.expires_at)
      × (tok.profile_ids ≡ input.profile_ids)
      × (is_consumable lookup time tok ≡ ltb time (now + input.ttl_seconds * one_second))
      × (consume_enrollment hash_secret (table_tokens fresh time) r.token dev db' ≡ (
          let (made, db'') = consume_enrollment_row fresh lookup dev time db' in
          (of_store made, db'')))
unfolding is_consumable
handle_enrollment-consume_enrollment hash_secret row_id lookup secret now input db r db' fresh dev
      time h plain l s p b =
    let draws : Draws = record { fresh = row_id; lookup = some lookup; secret = some secret } in
    let o = handle_enrollment-IsInvited hash_secret draws now input db r db' h in
    let (read, right) =
      parse-mint hash_secret token_kind_enrollment lookup secret o.minted o.mints plain l s in
    let (same_lookup, _) =
      mint-drawn hash_secret token_kind_enrollment lookup secret o.minted o.mints in
    let expires = enrollment_expiry now input.ttl_seconds in
    let row = created_row row_id now (enrollment_token input.profile_ids o.minted now expires) in
    let kept : by_lookup db' lookup ≡ ok row =
      subst (λ u. by_lookup db' u ≡ ok row) same_lookup o.kept in
    let parsed : ParsedToken = record {
      kind = token_kind_enrollment;
      lookup = o.minted.lookup;
      secret = secret;
    } in
    let asked = enrollment_expiry-asked now input.ttl_seconds p b in
    let drawn : same row.lookup lookup ≡ true = (same_iff row.lookup lookup).1 same_lookup in
    (
      row,
      ap (λ u. u.expires_at) o.answer ∙ asked,
      kept,
      sym (ap (λ u. u.expires_at) o.answer),
      refl,
      expires_later lookup time now input.ttl_seconds row drawn refl refl refl asked p,
      subst
          (λ u. consume_enrollment hash_secret (table_tokens fresh time) r.token dev db' ≡ (
            let (made, db'') = consume_enrollment_row fresh u dev time db' in
            (of_store made, db'')))
          same_lookup
          (consume_enrollment-stored hash_secret fresh r.token time parsed row dev db'
            (subst (λ w. parse w ≡ some parsed) (sym (ap (λ u. u.token) o.answer)) read)
            (same_refl token_kind_enrollment) o.kept right),
    )
