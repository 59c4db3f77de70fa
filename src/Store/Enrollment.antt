-- ===== src/Store/Enrollment.antt =====
-- Concurrent callers of `ConsumeEnrollment`: each reads the token first and writes later, and any other
-- caller, a revocation or a new token may come between.
use aliasdeck.Prelude.{
  ℕ, ◌+◌, ◌≤◌, ◌<◌, ◌≡◌, refl, inl, inr, false, List, [], ◌∷◌, some, In, Bool-cases, ◌==◌, arith,
}
use aliasdeck.Prelude.{ok, err, Result-cases}
use aliasdeck.Text.{Bytes, same}
use aliasdeck.Domain.Alias.{Device, Time}
use aliasdeck.Auth.Token.{Token, TokenKind}
use aliasdeck.Store.Errors.{StoreError}
use aliasdeck.Store.Tokens.{
  Database, find_token, consume_rows, insert_device, insert_memberships, write_enrollment,
  revoke_rows, revoke, revoke_subject_rows, revoke_subject,
}
use aliasdeck.Store.TokensLaws.{
  rows_with, unused, unused-rows_with, unused-consume_rows, write_enrollment-IsCommitted,
  unused-IsCommitted,
}

-- The database, the tokens that callers have read and not yet written for, and how many won.
pub record Race : Type 0 where
  pub db : Database
  pub pending : List Token
  pub winners : ℕ

pub data Step (lookup : Bytes) (r : Race) (r' : Race) : Type 0 where
  reads :
      (tok : Token)
      → find_token lookup r.db.tokens ≡ some tok
      → r' ≡ record r { pending = tok ∷ r.pending }
      → Step lookup r r'
  wins :
      (tok : Token) (dev d : Device) (now : Time) (db' : Database)
      → In tok r.pending
      → 0 < now
      → write_enrollment lookup tok dev now r.db ≡ (ok d, db')
      → r' ≡ record r { db = db'; winners = r.winners + 1 }
      → Step lookup r r'
  loses :
      (tok : Token) (dev : Device) (now : Time) (e : StoreError) (db' : Database)
      → In tok r.pending
      → 0 < now
      → write_enrollment lookup tok dev now r.db ≡ (err e, db')
      → r' ≡ record r { db = db' }
      → Step lookup r r'
  revokes :
      (id : Bytes) (now : Time) → r' ≡ record r { db = (revoke id now r.db).1 } → Step lookup r r'
  revokes_subject :
      (kind : TokenKind) (subject : Bytes) (now : Time)
      → r' ≡ record r { db = revoke_subject kind subject now r.db }
      → Step lookup r r'
  adds :
      (t : Token)
      → same t.lookup lookup ≡ false
      → r' ≡ record r { db = record r.db { tokens = t ∷ r.db.tokens } }
      → Step lookup r r'

pub data Reach (lookup : Bytes) (r : Race) : Race → Type 0 where
  here : Reach lookup r r
  next : {s t : Race} → Reach lookup r s → Step lookup s t → Reach lookup r t

unused-revoke_rows :
    (lookup id : Bytes) (now : Time) (ts : List Token)
    → unused lookup (revoke_rows id now ts).0 ≡ unused lookup ts
unfolding revoke_rows
unused-revoke_rows lookup id now [] = refl
unused-revoke_rows lookup id now (t ∷ ts) = ground (arith, unused-revoke_rows lookup id now ts)

unused-revoke :
    (lookup id : Bytes) (now : Time) (db : Database)
    → unused lookup (revoke id now db).1.tokens ≡ unused lookup db.tokens
unfolding revoke
unused-revoke lookup id now db = elim (Bool-cases (revoke_rows id now db.tokens).1) [
  | inl e ↦ rw (e) (unused-revoke_rows lookup id now db.tokens)
  | inr e ↦ rw (e)
]

unused-revoke_subject_rows :
    (lookup : Bytes) (kind : TokenKind) (subject : Bytes) (now : Time) (ts : List Token)
    → unused lookup (revoke_subject_rows kind subject now ts) ≡ unused lookup ts
unfolding revoke_subject_rows
unused-revoke_subject_rows lookup kind subject now [] = refl
unused-revoke_subject_rows lookup kind subject now (t ∷ ts) =
    ground (arith, unused-revoke_subject_rows lookup kind subject now ts)

write_enrollment-err :
    (lookup : Bytes) (tok : Token) (dev : Device) (now : Time) (e : StoreError) (db db' : Database)
    → write_enrollment lookup tok dev now db ≡ (err e, db')
    → db' ≡ db
unfolding write_enrollment
write_enrollment-err lookup tok dev now e db db' h =
    elim (Bool-cases ((consume_rows lookup dev.id now db.tokens).1 == 0)) [
      | inl x ↦ ground (arith, x)
      | inr x ↦ elim (Result-cases (insert_device dev db.devices)) [
        | inl (y, f) ↦ ground (arith, x, f)
        | inr (devices, f) ↦
            elim (Result-cases
              (insert_memberships dev.id db.profiles tok.profile_ids db.memberships)) [
                | inl (y, g) ↦ ground (arith, x, f, g)
                | inr (memberships, g) ↦ ground (arith, x, f, g)
              ]
      ]
    ]

-- The winners and the unused rows together are at most one.
abbrev pub IsFair : Bytes → Race → Type 0
IsFair lookup r = r.winners + unused lookup r.db.tokens ≤ 1

Step-IsFair : (lookup : Bytes) (r r' : Race) → Step lookup r r' → IsFair lookup r → IsFair lookup r'
unfolding revoke_subject
Step-IsFair lookup r r' (reads tok f e) h = rw e h
Step-IsFair lookup r r' (wins tok dev d now db' i p f e) h =
    let c = write_enrollment-IsCommitted lookup tok dev d now r.db db' f in
    let had : 1 ≤ unused lookup r.db.tokens =
      omega (arith, unused-consume_rows lookup dev.id now r.db.tokens p, c.some_row) in
    let spent : unused lookup db'.tokens ≡ 0 =
      unused-IsCommitted lookup dev now r.db db' p (omega arith) c in
    rw (e, spent) (omega arith)
Step-IsFair lookup r r' (loses tok dev now x db' i p f e) h =
    rw (e, write_enrollment-err lookup tok dev now x r.db db' f) h
Step-IsFair lookup r r' (revokes id now e) h = rw (e, unused-revoke lookup id now r.db) h
Step-IsFair lookup r r' (revokes_subject kind subject now e) h =
    rw (e, unused-revoke_subject_rows lookup kind subject now r.db.tokens) h
Step-IsFair lookup r r' (adds t f e) h = rw (e, f) h

Reach-IsFair :
    (lookup : Bytes) (r : Race) {r' : Race} → IsFair lookup r → Reach lookup r r' → IsFair lookup r'
Reach-IsFair lookup r h here = h
Reach-IsFair lookup r h (next {s = s} {t = t} reach step) =
    Step-IsFair lookup s t step (Reach-IsFair lookup r h reach)

-- However the calls interleave, at most one of them enrolls a device with a token: from a database where
-- the lookup is unique, with no caller yet, no sequence of steps has two winners.
pub winners-Reach :
    (lookup : Bytes) (db : Database) (r : Race)
    → rows_with lookup db.tokens ≤ 1
    → Reach lookup (record { db = db; pending = []; winners = 0 }) r
    → r.winners ≤ 1
winners-Reach lookup db r u reach =
    let fair =
      Reach-IsFair lookup (record { db = db; pending = []; winners = 0 })
        (omega (arith, unused-rows_with lookup db.tokens)) reach in
    omega arith
