-- ===== src/Api/RegisterLaws.antt =====
-- A registered device can sync, and its enrollment token is gone.
use aliasdeck.Prelude.{
  ◌≡◌, refl, sym, ap, inl, inr, true, false, ◌++◌, some, is_empty, Bool-cases, Option-cases, arith,
}
use aliasdeck.Prelude.{Result, ok, err, Result-cases}
use aliasdeck.Text.{Bytes}
use aliasdeck.Text.Search.{Lacks}
use aliasdeck.Domain.Shell.{platform_valid, shell_valid}
use aliasdeck.Domain.Alias.{Device, Time}
use aliasdeck.Auth.Token.{MintedToken, ParsedToken, mint, token_kind_device, consume_enrollment}
use aliasdeck.Auth.TokenLaws.{IsWire, parse_iff, parse-mint, consume_enrollment-ok}
use aliasdeck.Auth.Middleware.{Subject, bearer_prefix, require_kind}
use aliasdeck.Auth.MiddlewareLaws.{require_kind_iff, subject_of}
use aliasdeck.Store.Errors.{StoreError}
use aliasdeck.Store.Tokens.{Database, by_lookup, create_token, consume_enrollment_row}
use aliasdeck.Api.Session.{Draws}
use aliasdeck.Api.SessionLaws.{created_row, by_lookup-create_token, mint-drawn}
use aliasdeck.Api.Register.{
  of_store, table_tokens, RegisterRequest, DeviceTokenResponse, new_device, device_row_token,
  issue_token, register_with,
}

-- What stands behind the token of a device.
pub record IsIssued (hash_secret : Bytes → Bytes) (draws : Draws) (now : Time) (id : Bytes)
    (r : DeviceTokenResponse) (db' : Database) : Type 0 where
  pub minted : MintedToken
  pub mints : mint hash_secret token_kind_device draws.lookup draws.secret ≡ ok minted
  pub kept :
      by_lookup db' minted.lookup
      ≡ ok (created_row draws.fresh now (device_row_token id minted now))
  pub answer : r ≡ record { device_id = id; device_token = minted.wire }

issue_token-IsIssued :
    (hash_secret : Bytes → Bytes) (draws : Draws) (now : Time) (id : Bytes) (db : Database)
    (r : DeviceTokenResponse) (db' : Database)
    → issue_token hash_secret draws now id db ≡ (ok r, db')
    → IsIssued hash_secret draws now id r db'
unfolding issue_token
issue_token-IsIssued hash_secret draws now id db r db' h =
    elim (Result-cases (mint hash_secret token_kind_device draws.lookup draws.secret)) [
      | inl (x, e) ↦ ground (arith, e, h)
      | inr (minted, e) ↦
          let made = create_token draws.fresh now (device_row_token id minted now) db in
          elim (Option-cases made.0) [
            | inr (x, f) ↦ ground (arith, e, f, h)
            | inl f ↦
                let after : made.1 ≡ db' = ground (arith, e, f, h) in
                record {
                  minted = minted;
                  mints = e;
                  kept =
                      by_lookup-create_token draws.fresh now (device_row_token id minted now) db db'
                        (λ i. (f i, after i));
                  answer = ground (arith, e, f, h);
                }
          ]
    ]

of_store-ok : {A : Type 0} (r : Result StoreError A) (a : A) → of_store r ≡ ok a → r ≡ ok a
unfolding of_store
of_store-ok (ok b) a h = ground (arith, h)
of_store-ok (err e) a h = ground (arith, h)

-- What stands behind a registration: the device that enrollment made, and the database behind it.
pub record IsRegistered (hash_secret : Bytes → Bytes) (fresh : Bytes) (draws : Draws) (now : Time)
    (input : RegisterRequest) (wire : Bytes) (db : Database) (r : DeviceTokenResponse)
    (db' : Database) : Type 0 where
  pub parsed : ParsedToken
  pub dev : Device
  pub between : Database
  pub known_platform : platform_valid input.platform ≡ true
  pub known_shell : shell_valid input.shell ≡ true
  pub spelled : IsWire wire parsed
  pub enrolls :
      consume_enrollment_row fresh parsed.lookup (new_device input) now db ≡ (ok dev, between)
  pub issued : IsIssued hash_secret draws now dev.id r db'

register_with-IsRegistered :
    (hash_secret : Bytes → Bytes) (fresh : Bytes) (draws : Draws) (now : Time)
    (input : RegisterRequest) (wire : Bytes) (db : Database) (r : DeviceTokenResponse)
    (db' : Database)
    → register_with hash_secret fresh draws now input wire db ≡ (ok r, db')
    → IsRegistered hash_secret fresh draws now input wire db r db'
unfolding register_with table_tokens
register_with-IsRegistered hash_secret fresh draws now input wire db r db' h =
    elim (Bool-cases (platform_valid input.platform)) [
      | inr e ↦ ground (arith, e, h)
      | inl e ↦ elim (Bool-cases (shell_valid input.shell)) [
        | inr f ↦ ground (arith, e, f, h)
        | inl f ↦
            let consumed =
              consume_enrollment hash_secret (table_tokens fresh now) wire (new_device input) db in
            elim (Result-cases consumed.0) [
              | inl (x, g) ↦ ground (arith, e, f, g, h)
              | inr (dev, g) ↦
                  let (t, tok, spelled, _, _, _, stored) =
                    consume_enrollment-ok hash_secret (table_tokens fresh now) wire
                      (new_device input) dev db consumed.1 (λ i. (g i, consumed.1)) in
                  let row = consume_enrollment_row fresh t.lookup (new_device input) now db in
                  let made : row.0 ≡ ok dev = of_store-ok row.0 dev (ap (λ p. p.0) stored) in
                  let there : row.1 ≡ consumed.1 = ap (λ p. p.1) stored in
                  record {
                    parsed = t;
                    dev = dev;
                    between = consumed.1;
                    known_platform = e;
                    known_shell = f;
                    spelled = spelled;
                    enrolls = λ i. (made i, there i);
                    issued =
                        issue_token-IsIssued hash_secret draws now dev.id consumed.1 r db'
                          (ground (arith, e, f, g, h));
                  }
            ]
      ]
    ]

-- A registration that succeeds had an enrollment token that the store consumed for the new device, and the
-- token that it answers passes `RequireKind` as that device's at any time, where the lookup that was drawn has
-- no dot and neither text is empty.
pub register_with-require_kind :
    (hash_secret : Bytes → Bytes) (fresh row_id lookup secret : Bytes) (now : Time)
    (input : RegisterRequest) (wire : Bytes) (db : Database) (r : DeviceTokenResponse)
    (db' : Database) (time : Time)
    → register_with hash_secret fresh
        (record { fresh = row_id; lookup = some lookup; secret = some secret })
        now
        input
        wire
        db
      ≡ (ok r, db')
    → Lacks b'.' lookup
    → is_empty lookup ≡ false
    → is_empty secret ≡ false
    → (t : ParsedToken) × (dev : Device) × (between : Database) × (subj : Subject) × IsWire wire t
      × (consume_enrollment_row fresh t.lookup (new_device input) now db ≡ (ok dev, between))
      × (require_kind hash_secret
            (by_lookup db')
            token_kind_device
            time
            (bearer_prefix ++ r.device_token)
          ≡ some subj)
      × (subj.subject_id ≡ dev.id)
      × (r.device_id ≡ dev.id)
register_with-require_kind hash_secret fresh row_id lookup secret now input wire db r db' time h
      plain l s =
    let draws : Draws = record { fresh = row_id; lookup = some lookup; secret = some secret } in
    let made = register_with-IsRegistered hash_secret fresh draws now input wire db r db' h in
    let o = made.issued in
    let (read, _) =
      parse-mint hash_secret token_kind_device lookup secret o.minted o.mints plain l s in
    let parsed : ParsedToken = record {
      kind = token_kind_device;
      lookup = o.minted.lookup;
      secret = secret;
    } in
    let (_, hashed) = mint-drawn hash_secret token_kind_device lookup secret o.minted o.mints in
    let row = created_row row_id now (device_row_token made.dev.id o.minted now) in
    (
      made.parsed,
      made.dev,
      made.between,
      subject_of row,
      made.spelled,
      made.enrolls,
      (require_kind_iff hash_secret (by_lookup db') token_kind_device time
            (bearer_prefix ++ r.device_token) (subject_of row)).1
          (record {
            wire = o.minted.wire;
            parsed = parsed;
            tok = row;
            bearer = ap (λ u. bearer_prefix ++ u.device_token) o.answer;
            spelled = (parse_iff o.minted.wire parsed).0 read;
            found = o.kept;
            current = (sym hashed, refl, refl, inl refl);
            named = refl;
          }),
      refl,
      ap (λ u. u.device_id) o.answer,
    )
