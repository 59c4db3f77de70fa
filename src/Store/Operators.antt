-- ===== src/Store/Operators.antt =====
-- internal/store/sqlitestore/operators.go, on a list of rows.
use aliasdeck.Prelude.{
  ℕ, ◌≡◌, inl, inr, Bool, ◌||◌, List, [], ◌∷◌, ◌++◌, Option, none, some, length, any, is_empty,
  Bool-cases, if◌then◌else◌, arith,
}
use aliasdeck.Prelude.{Result, ok, err}
use aliasdeck.Text.{Bytes, same}
use aliasdeck.Domain.Alias.{Time}
use aliasdeck.Store.Errors.{StoreError, not_found, conflict}

pub record Operator : Type 0 where
  pub id : Bytes
  pub username : Bytes
  pub password_hash : Bytes
  pub created_at : Time
  pub updated_at : Time

-- GetOperatorByUsername: `username` has a unique index.
unfoldable pub find_operator : Bytes → List Operator → Option Operator
find_operator username [] = none
find_operator username (o ∷ os) =
    let rest = find_operator username os in if same o.username username then some o else rest

unfoldable pub clashes : Operator → Operator → Bool
clashes o row = same row.id o.id || same row.username o.username

-- `operatorRepo.Create`, with the fresh id and the time.
unfoldable pub create_operator :
    Bytes → Time → Operator → List Operator → Result StoreError Operator × List Operator
unfolding clashes
create_operator fresh now o rows =
    let row = record o {
      id = if is_empty o.id then fresh else o.id;
      created_at = now;
      updated_at = now;
    } in
    if any (clashes row) rows then (err conflict, rows) else (ok row, rows ++ row ∷ [])

-- `operatorRepo.Count`
abbrev pub count_operators : List Operator → ℕ
count_operators rows = length rows

-- UpdateOperatorPassword: the rows after the UPDATE.
unfoldable pub update_password_rows : Bytes → Bytes → Time → List Operator → List Operator
update_password_rows username hash now [] = []
update_password_rows username hash now (o ∷ os) =
    let rest = update_password_rows username hash now os in
    if same o.username username
    then record o { password_hash = hash; updated_at = now } ∷ rest
    else o ∷ rest

-- `operatorRepo.UpdatePasswordHash`
unfoldable pub update_password_hash :
    Bytes → Bytes → Time → List Operator → Result StoreError Operator × List Operator
unfolding update_password_rows find_operator
update_password_hash username hash now rows =
    let updated = update_password_rows username hash now rows in
    elim (find_operator username updated) [
      | none ↦ (err not_found, rows)
      | some o ↦ (ok o, updated)
    ]

pub find_operator-update_password_rows :
    (username hash : Bytes) (now : Time) (rows : List Operator) (o : Operator)
    → find_operator username (update_password_rows username hash now rows) ≡ some o
    → o.password_hash ≡ hash
unfolding find_operator update_password_rows
find_operator-update_password_rows username hash now [] o h = cc
find_operator-update_password_rows username hash now (r ∷ rows) o h =
    elim (Bool-cases (same r.username username)) [
      | inl e ↦ ground (arith, e)
      | inr e ↦ ground (arith, e, find_operator-update_password_rows username hash now rows o)
    ]
