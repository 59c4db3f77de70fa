-- ===== src/Store/Tokens.antt =====
-- internal/store/sqlitestore/tokens.go: the token table and `ConsumeEnrollment`, on lists of rows. A column
-- that is NULL is the time 0, and a transaction that fails leaves the database as it was.
use aliasdeck.Prelude.{
  ℕ, ◌+◌, Bool, true, false, ◌&&◌, ◌||◌, not, List, [], ◌∷◌, ◌++◌, Option, none, some, any,
  is_empty, ltb, ◌==◌, if◌then◌else◌,
}
use aliasdeck.Prelude.{Result, ok, err}
use aliasdeck.Text.{Bytes, same, contains_text}
use aliasdeck.Domain.Alias.{Device, Time}
use aliasdeck.Auth.Token.{Token, TokenKind, token_kind_enrollment}
use aliasdeck.Store.Errors.{StoreError, not_found, conflict, invalid_reference}

-- The tables that enrollment reads and writes; a membership is a device and a profile.
pub record Database : Type 0 where
  pub tokens : List Token
  pub devices : List Device
  pub profiles : List Bytes
  pub memberships : List (Bytes × Bytes)

-- GetTokenByLookup: `lookup` has a unique index.
unfoldable pub find_token : Bytes → List Token → Option Token
find_token lookup [] = none
find_token lookup (t ∷ ts) =
    let rest = find_token lookup ts in if same t.lookup lookup then some t else rest

-- `tokenRepo.ByLookup`
unfoldable pub by_lookup : Database → Bytes → Result StoreError Token
by_lookup db lookup = elim (find_token lookup db.tokens) [ none ↦ err not_found | some t ↦ ok t ]

-- The WHERE clause of ConsumeEnrollmentToken.
unfoldable pub is_consumable : Bytes → Time → Token → Bool
is_consumable lookup now t =
    same t.lookup lookup
    && same t.kind token_kind_enrollment
    && t.used_at == 0
    && t.revoked_at == 0
    && (t.expires_at == 0 || ltb now t.expires_at)

-- ConsumeEnrollmentToken: the rows after the UPDATE, and how many it changed.
unfoldable pub consume_rows : Bytes → Bytes → Time → List Token → List Token × ℕ
consume_rows lookup subject now [] = ([], 0)
consume_rows lookup subject now (t ∷ ts) =
    let (rows, affected) = consume_rows lookup subject now ts in
    if is_consumable lookup now t
    then (record t { used_at = now; subject_id = subject } ∷ rows, affected + 1)
    else (t ∷ rows, affected)

unfoldable pub has_device : Bytes → List Device → Bool
has_device id devices = any (λ d. same d.id id) devices

-- The columns that InsertDevice fills; the other fields of a device are not stored.
unfoldable pub device_row : Device → Device
device_row dev = record dev {
  hostname = [];
  architecture = [];
  profile_ids = [];
  last_seen_at = none;
  last_sync_at = none;
  revoked_at = none;
}

-- InsertDevice, whose primary key is the id.
unfoldable pub insert_device : Device → List Device → Result StoreError (List Device)
unfolding has_device device_row
insert_device dev devices =
    if has_device dev.id devices then err conflict else ok (devices ++ device_row dev ∷ [])

unfoldable pub has_membership : Bytes → Bytes → List (Bytes × Bytes) → Bool
has_membership device profile ms = any (λ (d, p). same d device && same p profile) ms

-- The loop of InsertDeviceProfile: a foreign key to the profile, and a primary key over both columns.
unfoldable pub insert_memberships :
    Bytes
    → List Bytes
    → List Bytes
    → List (Bytes × Bytes)
    → Result StoreError (List (Bytes × Bytes))
unfolding has_membership
insert_memberships device profiles [] ms = ok ms
insert_memberships device profiles (p ∷ ps) ms =
    let rest = insert_memberships device profiles ps (ms ++ (device, p) ∷ []) in
    if not (contains_text profiles p)
    then err invalid_reference
    else if has_membership device p ms
    then err conflict
    else rest

-- The transaction behind its read of the token `tok`, on the database at the time of its writes.
unfoldable pub write_enrollment :
    Bytes → Token → Device → Time → Database → Result StoreError Device × Database
unfolding consume_rows insert_device insert_memberships
write_enrollment lookup tok dev now db =
    let (rows, affected) = consume_rows lookup dev.id now db.tokens in
    if affected == 0 then (err conflict, db) else elim (insert_device dev db.devices) [
      | err e ↦ (err e, db)
      | ok devices ↦ elim (insert_memberships dev.id db.profiles tok.profile_ids db.memberships) [
        | err e ↦ (err e, db)
        | ok memberships ↦ (
          ok (record dev { profile_ids = tok.profile_ids }),
          record db { tokens = rows; devices = devices; memberships = memberships },
        )
      ]
    ]

-- The id of a device without one: `uuid.NewString`, a parameter.
unfoldable pub with_id : Bytes → Device → Device
with_id fresh dev = if is_empty dev.id then record dev { id = fresh } else dev

-- `tokenRepo.ConsumeEnrollment`
unfoldable pub consume_enrollment_row :
    Bytes → Bytes → Device → Time → Database → Result StoreError Device × Database
unfolding write_enrollment with_id
consume_enrollment_row fresh lookup dev now db = elim (find_token lookup db.tokens) [
  | none ↦ (err not_found, db)
  | some tok ↦ write_enrollment lookup tok (with_id fresh dev) now db
]

-- `tokenRepo.Revoke`: the rows, and whether one was found.
unfoldable pub revoke_rows : Bytes → Time → List Token → List Token × Bool
revoke_rows id at_time [] = ([], false)
revoke_rows id at_time (t ∷ ts) =
    let (rows, found) = revoke_rows id at_time ts in
    if same t.id id then (record t { revoked_at = at_time } ∷ rows, true) else (t ∷ rows, found)

unfoldable pub revoke : Bytes → Time → Database → Option StoreError × Database
unfolding revoke_rows
revoke id at_time db =
    let (rows, found) = revoke_rows id at_time db.tokens in
    if found then (none, record db { tokens = rows }) else (some not_found, db)

-- `tokenRepo.RevokeSubject`
unfoldable pub revoke_subject_rows : TokenKind → Bytes → Time → List Token → List Token
revoke_subject_rows kind subject at_time [] = []
revoke_subject_rows kind subject at_time (t ∷ ts) =
    let rest = revoke_subject_rows kind subject at_time ts in
    if same t.kind kind && same t.subject_id subject && t.revoked_at == 0
    then record t { revoked_at = at_time } ∷ rest
    else t ∷ rest

unfoldable pub revoke_subject : TokenKind → Bytes → Time → Database → Database
unfolding revoke_subject_rows
revoke_subject kind subject at_time db = record db {
  tokens = revoke_subject_rows kind subject at_time db.tokens;
}

-- The unique index of CreateToken, and its primary key.
unfoldable pub token_clashes : Token → Token → Bool
token_clashes t row = same row.id t.id || same row.lookup t.lookup

-- `tokenRepo.Create`, with the fresh id and the time for a token without them.
unfoldable pub create_token : Bytes → Time → Token → Database → Option StoreError × Database
unfolding token_clashes
create_token fresh now t db =
    let row = record t {
      id = if is_empty t.id then fresh else t.id;
      created_at = if t.created_at == 0 then now else t.created_at;
    } in
    if any (token_clashes row) db.tokens
    then (some conflict, db)
    else (none, record db { tokens = db.tokens ++ row ∷ [] })
