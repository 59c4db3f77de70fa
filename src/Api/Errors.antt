-- ===== src/Api/Errors.antt =====
-- internal/api/errors.go: the answers of the API to a request that fails.
use aliasdeck.Prelude.{ℕ}
use aliasdeck.Text.{Bytes, codes}
use aliasdeck.Store.Errors.{StoreError, not_found, conflict, capacity, invalid_reference, failure}

-- The status and the `code` of an error body.
pub record ApiError : Type 0 where
  pub status : ℕ
  pub code : Bytes

abbrev pub invalid_request : ApiError
invalid_request = record { status = 400; code = codes "invalid_request" }

abbrev pub unauthorized_device : ApiError
unauthorized_device = record { status = 401; code = codes "invalid_token" }

-- `writeStoreError`
unfoldable pub store_error : StoreError → ApiError
store_error not_found = record { status = 404; code = codes "not_found" }
store_error conflict = record { status = 409; code = codes "conflict" }
store_error invalid_reference = record { status = 422; code = codes "invalid_reference" }
store_error capacity = record { status = 500; code = codes "internal" }
store_error failure = record { status = 500; code = codes "internal" }
