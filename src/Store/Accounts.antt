-- ===== src/Store/Accounts.antt =====
-- internal/store/store.go: what `internal/auth` calls of `store.Store`, and the tables that carry it out.
use aliasdeck.Prelude.{ℕ, List, Option, none}
use aliasdeck.Prelude.{Result, ok}
use aliasdeck.Text.{Bytes}
use aliasdeck.Domain.Alias.{Time}
use aliasdeck.Auth.Token.{TokenKind}
use aliasdeck.Store.Errors.{StoreError}
use aliasdeck.Store.Tokens.{Database, revoke_subject}
use aliasdeck.Store.Operators.{Operator, create_operator, count_operators, update_password_hash}

-- `Operators()` and `Tokens()`, on a state `W`.
pub record Accounts (W : Type 0) : Type 0 where
  pub count : W → Result StoreError ℕ
  pub create : Operator → W → Result StoreError Operator × W
  pub update_hash : Bytes → Bytes → W → Result StoreError Operator × W
  pub revoke_all : TokenKind → Bytes → Time → W → Option StoreError × W

pub record Tables : Type 0 where
  pub operators : List Operator
  pub db : Database

-- A statement on the operators, within the tables.
unfoldable pub on_operators :
    Tables → Result StoreError Operator × List Operator → Result StoreError Operator × Tables
on_operators w (r, rows) = (r, record w { operators = rows })

-- The store of internal/store/sqlitestore, with the id and the time that the next call gets.
unfoldable pub table_accounts : Bytes → Time → Accounts Tables
unfolding on_operators
table_accounts fresh now = record {
  count = λ w. ok (count_operators w.operators);
  create = λ o w. on_operators w (create_operator fresh now o w.operators);
  update_hash =
      λ username hash w. on_operators w (update_password_hash username hash now w.operators);
  revoke_all =
      λ kind subject at_time w. (none, record w { db = revoke_subject kind subject at_time w.db });
}
