-- ===== src/Store/TokensLaws.antt =====
-- An enrollment token is consumed at most once.
use aliasdeck.Prelude.{
  ℕ, ◌+◌, ◌≤◌, ◌<◌, ◌≡◌, refl, sym, ap, ◌∙◌, inl, inr, ◌&&◌, List, [], ◌∷◌, none, Bool-cases,
  Option-cases, ◌==◌, if◌then◌else◌, arith,
}
use aliasdeck.Prelude.{ok, err, Result-cases}
use aliasdeck.Text.{Bytes, same}
use aliasdeck.Domain.Alias.{Device, Time}
use aliasdeck.Auth.Token.{Token}
use aliasdeck.Store.Errors.{conflict}
use aliasdeck.Store.Tokens.{
  Database, find_token, is_consumable, consume_rows, insert_device, insert_memberships,
  write_enrollment, with_id, consume_enrollment_row,
}

-- How many rows have the lookup: at most one, by the unique index.
abbrev pub rows_with : Bytes → List Token → ℕ
rows_with lookup [] = 0
rows_with lookup (t ∷ ts) =
    let rest = rows_with lookup ts in if same t.lookup lookup then rest + 1 else rest

-- How many of them nobody has used.
abbrev pub unused : Bytes → List Token → ℕ
unused lookup [] = 0
unused lookup (t ∷ ts) =
    let rest = unused lookup ts in if same t.lookup lookup && t.used_at == 0 then rest + 1 else rest

pub unused-rows_with : (lookup : Bytes) (ts : List Token) → unused lookup ts ≤ rows_with lookup ts
unused-rows_with lookup [] = omega arith
unused-rows_with lookup (t ∷ ts) = ground (arith, unused-rows_with lookup ts)

-- The UPDATE uses up what it counts.
pub unused-consume_rows :
    (lookup subject : Bytes) (now : Time) (ts : List Token)
    → 0 < now
    → unused lookup (consume_rows lookup subject now ts).0 + (consume_rows lookup subject now ts).1
      ≡ unused lookup ts
unfolding consume_rows is_consumable
unused-consume_rows lookup subject now [] h = omega arith
unused-consume_rows lookup subject now (t ∷ ts) h =
    ground (arith, unused-consume_rows lookup subject now ts h)

find_token-consume_rows :
    (lookup subject : Bytes) (now : Time) (ts : List Token)
    → find_token lookup (consume_rows lookup subject now ts).0 ≡ none
    → find_token lookup ts ≡ none
unfolding consume_rows find_token
find_token-consume_rows lookup subject now [] h = refl
find_token-consume_rows lookup subject now (t ∷ ts) h = elim (Bool-cases (same t.lookup lookup)) [
  | inl e ↦ ground (arith, e)
  | inr e ↦ ground (arith, e, find_token-consume_rows lookup subject now ts)
]

-- Without an unused row the transaction is a conflict.
pub write_enrollment-unused :
    (lookup : Bytes) (tok : Token) (dev : Device) (now : Time) (db : Database)
    → 0 < now
    → unused lookup db.tokens ≡ 0
    → write_enrollment lookup tok dev now db ≡ (err conflict, db)
unfolding write_enrollment
write_enrollment-unused lookup tok dev now db h k =
    let none_left : (consume_rows lookup dev.id now db.tokens).1 ≡ 0 =
      omega (arith, unused-consume_rows lookup dev.id now db.tokens h) in
    ground (arith, none_left)

-- A transaction that commits leaves the rows of the UPDATE, which changed at least one.
pub record IsCommitted (lookup : Bytes) (dev : Device) (now : Time) (db db' : Database)
    : Type 0 where
  pub rows : db'.tokens ≡ (consume_rows lookup dev.id now db.tokens).0
  pub some_row : 1 ≤ (consume_rows lookup dev.id now db.tokens).1

pub write_enrollment-IsCommitted :
    (lookup : Bytes) (tok : Token) (dev d : Device) (now : Time) (db db' : Database)
    → write_enrollment lookup tok dev now db ≡ (ok d, db')
    → IsCommitted lookup dev now db db'
unfolding write_enrollment
write_enrollment-IsCommitted lookup tok dev d now db db' h =
    elim (Bool-cases ((consume_rows lookup dev.id now db.tokens).1 == 0)) [
      | inl e ↦ ground (arith, e)
      | inr e ↦ elim (Result-cases (insert_device dev db.devices)) [
        | inl (x, f) ↦ ground (arith, e, f)
        | inr (devices, f) ↦
            elim (Result-cases
              (insert_memberships dev.id db.profiles tok.profile_ids db.memberships)) [
                | inl (x, g) ↦ ground (arith, e, f, g)
                | inr (memberships, g) ↦ record {
                  rows = ground (arith, e, f, g);
                  some_row = ground (arith, e);
                }
              ]
      ]
    ]

consume_enrollment_row-IsCommitted :
    (fresh lookup : Bytes) (dev d : Device) (now : Time) (db db' : Database)
    → consume_enrollment_row fresh lookup dev now db ≡ (ok d, db')
    → IsCommitted lookup (with_id fresh dev) now db db'
unfolding consume_enrollment_row
consume_enrollment_row-IsCommitted fresh lookup dev d now db db' h =
    elim (Option-cases (find_token lookup db.tokens)) [
      | inl e ↦ ground (arith, e)
      | inr (tok, e) ↦
          write_enrollment-IsCommitted lookup tok (with_id fresh dev) d now db db'
            (ground (arith, e))
    ]

-- After a commit no row of the lookup is unused.
pub unused-IsCommitted :
    (lookup : Bytes) (dev : Device) (now : Time) (db db' : Database)
    → 0 < now
    → unused lookup db.tokens ≤ 1
    → IsCommitted lookup dev now db db'
    → unused lookup db'.tokens ≡ 0
unused-IsCommitted lookup dev now db db' h u c =
    rw c.rows (omega (arith, unused-consume_rows lookup dev.id now db.tokens h, c.some_row))

-- An enrollment token is consumed at most once: when `ConsumeEnrollment` of the store has returned a
-- device, every later call with the same lookup is a conflict and leaves the database as it is, for any
-- device, id and time. The lookup is unique among the rows, and the clock is past the zero time.
pub consume_enrollment_row-again :
    (fresh lookup : Bytes) (dev d : Device) (now : Time) (db db' : Database)
    → rows_with lookup db.tokens ≤ 1
    → 0 < now
    → consume_enrollment_row fresh lookup dev now db ≡ (ok d, db')
    → (fresh' : Bytes) (dev' : Device) (now' : Time) → 0 < now'
    → consume_enrollment_row fresh' lookup dev' now' db' ≡ (err conflict, db')
unfolding consume_enrollment_row
consume_enrollment_row-again fresh lookup dev d now db db' u h e fresh' dev' now' h' =
    let c = consume_enrollment_row-IsCommitted fresh lookup dev d now db db' e in
    let spent =
      unused-IsCommitted lookup (with_id fresh dev) now db db' h
        (omega (arith, unused-rows_with lookup db.tokens)) c in
    elim (Option-cases (find_token lookup db'.tokens)) [
      | inl f ↦
          let gone : find_token lookup db.tokens ≡ none =
            find_token-consume_rows lookup (with_id fresh dev).id now db.tokens
              (ap (find_token lookup) (sym c.rows) ∙ f) in
          ground (arith, gone)
      | inr (tok, f) ↦
          rw (consume_enrollment_row, f)
            (write_enrollment-unused lookup tok (with_id fresh' dev') now' db' h' spent)
    ]
