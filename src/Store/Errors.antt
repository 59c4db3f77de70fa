-- ===== src/Store/Errors.antt =====
-- internal/store/errors.go, and internal/store/sqlitestore/convert.go: `mapWriteError` and `mapReadError`.
use aliasdeck.Prelude.{ℕ, ◌%◌, ◌==◌, if◌then◌else◌}

pub data StoreError : Type 0 where
  not_found : StoreError
  conflict : StoreError
  capacity : StoreError
  invalid_reference : StoreError
  failure : StoreError

-- What the SQL driver reports: no row, its own error with a code, or another error.
pub data SqlError : Type 0 where
  no_rows : SqlError
  sqlite : ℕ → SqlError
  other : SqlError

abbrev pub sqlite_constraint_primary_code : ℕ
sqlite_constraint_primary_code = 19

abbrev pub sqlite_constraint_foreign_key : ℕ
sqlite_constraint_foreign_key = 787

-- `mapWriteError`; `code & 0xff` is the remainder by 256.
unfoldable pub map_write_error : SqlError → StoreError
map_write_error (sqlite code) =
    if code == sqlite_constraint_foreign_key
    then invalid_reference
    else if code % 256 == sqlite_constraint_primary_code
    then conflict
    else failure
map_write_error _ = failure

-- `mapReadError`
unfoldable pub map_read_error : SqlError → StoreError
map_read_error no_rows = not_found
map_read_error _ = failure
