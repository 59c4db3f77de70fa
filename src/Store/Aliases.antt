-- ===== src/Store/Aliases.antt =====
-- internal/store/sqlitestore/aliases.go and internal/store/alias_capacity.go, on lists of rows. A column that
-- holds a list as JSON is that list, and a transaction that fails leaves the tables as they were.
use aliasdeck.Prelude.{
  ℕ, Bool, ◌&&◌, ◌||◌, not, List, [], ◌∷◌, ◌++◌, Option, none, some, length, any, keep, is_empty,
  ltb, leb, ◌==◌, if◌then◌else◌,
}
use aliasdeck.Prelude.{Result, ok, err}
use mathlib.Core.List.{map}
use aliasdeck.Text.{Bytes, same, text_leb}
use aliasdeck.Domain.Alias.{Alias, Time}
use aliasdeck.Store.Errors.{StoreError, not_found, conflict, capacity, failure}
use aliasdeck.Store.Tokens.{insert_memberships}

-- The tables of aliases; a row's own lists of profiles and devices are empty, the links have them.
pub record Catalog : Type 0 where
  pub rows : List Alias
  pub profile_links : List (Bytes × Bytes)
  pub device_links : List (Bytes × Bytes)
  pub profiles : List Bytes
  pub devices : List Bytes

unfoldable pub insert_id : Bytes → List Bytes → List Bytes
insert_id x [] = x ∷ []
insert_id x (y ∷ ys) = let later = y ∷ insert_id x ys in if text_leb x y then x ∷ y ∷ ys else later

-- ListAliasProfileIDs and ListAliasDeviceIDs: the linked ids, ordered.
unfoldable pub linked_ids : Bytes → List (Bytes × Bytes) → List Bytes
unfolding insert_id
linked_ids id [] = []
linked_ids id ((a, p) ∷ links) =
    let rest = linked_ids id links in if same a id then insert_id p rest else rest

-- ClearAliasProfiles and ClearAliasDevices.
unfoldable pub clear_links : Bytes → List (Bytes × Bytes) → List (Bytes × Bytes)
clear_links id links = keep (λ (a, p). not (same a id)) links

-- `setAliasProfiles`
unfoldable pub set_alias_profiles : Bytes → List Bytes → Catalog → Result StoreError Catalog
unfolding insert_memberships clear_links
set_alias_profiles id ids c =
    elim (insert_memberships id c.profiles ids (clear_links id c.profile_links)) [
      | err e ↦ err e
      | ok links ↦ ok (record c { profile_links = links })
    ]

-- `setAliasDevices`
unfoldable pub set_alias_devices : Bytes → List Bytes → Catalog → Result StoreError Catalog
unfolding insert_memberships clear_links
set_alias_devices id ids c =
    elim (insert_memberships id c.devices ids (clear_links id c.device_links)) [
      | err e ↦ err e
      | ok links ↦ ok (record c { device_links = links })
    ]

-- `toDomainAlias`, with the linked ids.
unfoldable pub to_domain_alias : Catalog → Alias → Alias
unfolding linked_ids
to_domain_alias c row = record row {
  profile_ids = linked_ids row.id c.profile_links;
  device_ids = linked_ids row.id c.device_links;
}

-- The links of a written row, and the alias as it is read back: the end of `create` and of `Update`.
unfoldable pub write_links : Alias → Alias → Catalog → Result StoreError (Alias × Catalog)
unfolding set_alias_profiles set_alias_devices to_domain_alias
write_links a row c = elim (set_alias_profiles row.id a.profile_ids c) [
  | err e ↦ err e
  | ok c1 ↦ elim (set_alias_devices row.id a.device_ids c1) [
    | err e ↦ err e
    | ok c2 ↦ ok (to_domain_alias c2 row, c2)
  ]
]

-- A transaction: its result, and the tables behind it.
unfoldable pub commit :
    Catalog → Result StoreError (Alias × Catalog) → Result StoreError Alias × Catalog
commit c (err e) = (err e, c)
commit c (ok (a, c')) = (ok a, c')

-- The row of a new alias; `fresh` is the id for an alias without one.
unfoldable pub new_row : Bytes → Time → Alias → Alias
new_row fresh now a = record a {
  id = if is_empty a.id then fresh else a.id;
  profile_ids = [];
  device_ids = [];
  created_at = now;
  updated_at = now;
}

-- The primary key, and the unique name.
unfoldable pub row_clashes : Alias → Alias → Bool
row_clashes row r = same r.id row.id || same r.name row.name

-- CreateAlias, or the bounded insert where `limit` is not 0.
unfoldable pub insert_row : ℕ → Alias → List Alias → Result StoreError (List Alias)
unfolding row_clashes
insert_row limit row rows =
    if ltb 0 limit && leb limit (length rows)
    then err capacity
    else if any (row_clashes row) rows
    then err conflict
    else ok (rows ++ row ∷ [])

-- `aliasRepo.create`
unfoldable pub create : Bytes → Time → Alias → ℕ → Catalog → Result StoreError Alias × Catalog
unfolding new_row insert_row write_links commit
create fresh now a limit c =
    let row = new_row fresh now a in
    elim (insert_row limit row c.rows) [
      | err e ↦ (err e, c)
      | ok rows ↦ commit c (write_links a row (record c { rows = rows }))
    ]

-- `CreateAliasWithinLimit` with `aliasRepo.CreateWithinLimit`.
unfoldable pub create_within_limit :
    Bytes → Time → Alias → ℕ → Catalog → Result StoreError Alias × Catalog
unfolding create
create_within_limit fresh now a limit c =
    if limit == 0 then (err failure, c) else create fresh now a limit c

unfoldable pub find_row : Bytes → List Alias → Option Alias
find_row id [] = none
find_row id (r ∷ rows) = let rest = find_row id rows in if same r.id id then some r else rest

-- `aliasRepo.Get`
unfoldable pub get : Bytes → Catalog → Result StoreError Alias
unfolding find_row to_domain_alias
get id c = elim (find_row id c.rows) [
  | none ↦ err not_found
  | some row ↦ ok (to_domain_alias c row)
]

unfoldable pub insert_by_name : Alias → List Alias → List Alias
insert_by_name a [] = a ∷ []
insert_by_name a (b ∷ bs) =
    let later = b ∷ insert_by_name a bs in if text_leb a.name b.name then a ∷ b ∷ bs else later

unfoldable pub order_by_name : List Alias → List Alias
unfolding insert_by_name
order_by_name [] = []
order_by_name (a ∷ rows) = insert_by_name a (order_by_name rows)

-- `aliasRepo.List`
unfoldable pub list_all : Catalog → List Alias
unfolding order_by_name to_domain_alias
list_all c = map (to_domain_alias c) (order_by_name c.rows)

-- The columns that UpdateAlias sets.
unfoldable pub updated_row : Time → Alias → Alias → Alias
updated_row now a row = record row {
  name = a.name;
  command = a.command;
  description = a.description;
  enabled = a.enabled;
  platforms = a.platforms;
  shells = a.shells;
  tags = a.tags;
  updated_at = now;
}

-- UpdateAlias: the rows behind the UPDATE.
unfoldable pub update_rows : Time → Alias → List Alias → List Alias
unfolding updated_row
update_rows now a [] = []
update_rows now a (r ∷ rows) =
    let rest = update_rows now a rows in
    if same r.id a.id then updated_row now a r ∷ rest else r ∷ rest

-- Another row has the name.
unfoldable pub name_taken : Alias → List Alias → Bool
name_taken a rows = any (λ r. not (same r.id a.id) && same r.name a.name) rows

-- `aliasRepo.Update`
unfoldable pub update : Time → Alias → Catalog → Result StoreError Alias × Catalog
unfolding find_row name_taken update_rows updated_row write_links commit
update now a c = elim (find_row a.id c.rows) [
  | none ↦ (err not_found, c)
  | some row ↦
      if name_taken a c.rows
      then (err conflict, c)
      else commit c
          (write_links a (updated_row now a row) (record c { rows = update_rows now a c.rows }))
]

-- `aliasRepo.Delete`, whose foreign keys cascade.
unfoldable pub delete : Bytes → Catalog → Option StoreError × Catalog
unfolding find_row clear_links
delete id c = elim (find_row id c.rows) [
  | none ↦ (some not_found, c)
  | some row ↦ (
    none,
    record c {
      rows = keep (λ r. not (same r.id id)) c.rows;
      profile_links = clear_links id c.profile_links;
      device_links = clear_links id c.device_links;
    },
  )
]
