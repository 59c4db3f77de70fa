-- ===== src/Api/Aliases.antt =====
-- internal/api/aliases.go: the handlers that write aliases. Decoding the body and the audit log are left out.
use aliasdeck.Prelude.{List, [], ◌∷◌, Option, none, some}
use aliasdeck.Prelude.{Result, ok, err}
use aliasdeck.Text.{Bytes, codes}
use aliasdeck.Domain.Alias.{Alias, Time}
use aliasdeck.Validate.Command.{check_command, check_description}
use aliasdeck.Validate.Issues.{max_aliases}
use aliasdeck.Store.Errors.{StoreError, not_found, conflict, capacity, invalid_reference, failure}
use aliasdeck.Store.Aliases.{Catalog, create_within_limit, update, delete}
use aliasdeck.Api.Errors.{ApiError, store_error}

-- `validateAliasWrite`: `none` is the answer true. The name is not looked at.
unfoldable pub validate_alias_write : Alias → Option ApiError
unfolding check_command check_description
validate_alias_write a = elim (check_command a.command) [
  | some e ↦ some (record { status = 400; code = codes "invalid_command" })
  | none ↦ elim (check_description a.description) [
    | some e ↦ some (record { status = 400; code = codes "invalid_description" })
    | none ↦ none
  ]
]

unfoldable pub create_status : StoreError → ApiError
unfolding store_error
create_status capacity = record { status = 400; code = codes "too_many_aliases" }
create_status not_found = store_error not_found
create_status conflict = store_error conflict
create_status invalid_reference = store_error invalid_reference
create_status failure = store_error failure

-- `handleAliasesCreate`, with the id and the time that the store gives.
unfoldable pub handle_create : Bytes → Time → Alias → Catalog → Result ApiError Alias × Catalog
unfolding validate_alias_write create_within_limit create_status
handle_create fresh now a c = elim (validate_alias_write a) [
  | some e ↦ (err e, c)
  | none ↦
      let (r, c') = create_within_limit fresh now a max_aliases c in
      elim r [ err e ↦ (err (create_status e), c') | ok out ↦ (ok out, c') ]
]

-- `handleAliasesUpdate`, with the id of the path.
unfoldable pub handle_update : Time → Bytes → Alias → Catalog → Result ApiError Alias × Catalog
unfolding validate_alias_write update store_error
handle_update now id a c =
    let input = record a { id = id } in
    elim (validate_alias_write input) [
      | some e ↦ (err e, c)
      | none ↦
          let (r, c') = update now input c in
          elim r [ err e ↦ (err (store_error e), c') | ok out ↦ (ok out, c') ]
    ]

-- `handleAliasesDelete`
unfoldable pub handle_delete : Bytes → Catalog → Option ApiError × Catalog
unfolding delete store_error
handle_delete id c =
    let (r, c') = delete id c in elim r [ some e ↦ (some (store_error e), c') | none ↦ (none, c') ]

-- The requests that write.
pub data WriteRequest : Type 0 where
  create_alias : Bytes → Time → Alias → WriteRequest
  update_alias : Time → Bytes → Alias → WriteRequest
  delete_alias : Bytes → WriteRequest

unfoldable pub serve : WriteRequest → Catalog → Catalog
unfolding handle_create handle_update handle_delete
serve (create_alias fresh now a) c = (handle_create fresh now a c).1
serve (update_alias now id a) c = (handle_update now id a c).1
serve (delete_alias id) c = (handle_delete id c).1

unfoldable pub serve_all : List WriteRequest → Catalog → Catalog
unfolding serve
serve_all [] c = c
serve_all (r ∷ requests) c = serve_all requests (serve r c)
