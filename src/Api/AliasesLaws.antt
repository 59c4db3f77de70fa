-- ===== src/Api/AliasesLaws.antt =====
-- The alias table under any sequence of requests.
use aliasdeck.Prelude.{
  ℕ, ◌+◌, ◌≤◌, ◌<◌, ◌≡◌, refl, sym, ap, ◌∙◌, inl, inr, false, ◌&&◌, not, List, [], ◌∷◌, ◌++◌, some,
  length, any, Bool-cases, Option-cases, ltb, leb, arith,
}
use aliasdeck.Prelude.{ok, Result-cases}
use mathlib.Core.Path.{subst}
use aliasdeck.Text.{Bytes, same}
use aliasdeck.Text.Equality.{same_refl}
use aliasdeck.Domain.Alias.{Alias, Time}
use aliasdeck.Validate.Issues.{max_aliases}
use aliasdeck.Store.Aliases.{
  Catalog, write_links, commit, new_row, insert_row, create, create_within_limit, find_row, get,
  updated_row, update_rows, name_taken, update, delete, to_domain_alias, row_clashes,
}
use aliasdeck.Store.AliasesLaws.{
  IsKeyed, insert_row-IsKeyed, length-update_rows, update_rows-IsKeyed, length-keep, keep-IsKeyed,
  rows-write_links,
}
use aliasdeck.Store.Links.{In-linked_ids, links-write_links}
use aliasdeck.Prelude.{In, ◌↔◌}
use aliasdeck.Api.Aliases.{
  validate_alias_write, handle_create, handle_update, handle_delete, WriteRequest, create_alias,
  update_alias, delete_alias, serve, serve_all,
}

-- Unique keys, and at most `MaxAliases` rows.
abbrev pub IsCatalog : Catalog → Type 0
IsCatalog c = IsKeyed c.rows × (length c.rows ≤ max_aliases)

length-append : (row : Alias) (rows : List Alias) → length (rows ++ row ∷ []) ≡ length rows + 1
length-append row [] = refl
length-append row (r ∷ rows) = ground (arith, length-append row rows)

below_limit : (limit n : ℕ) → 0 < limit → ltb 0 limit && leb limit n ≡ false → n + 1 ≤ limit
below_limit limit n p h = ground arith

IsCatalog-rows : (c c' : Catalog) → c'.rows ≡ c.rows → IsCatalog c → IsCatalog c'
IsCatalog-rows c c' e h = subst (λ rows. IsKeyed rows × (length rows ≤ max_aliases)) (sym e) h

commit-IsCatalog :
    (a row : Alias) (c c' : Catalog)
    → IsCatalog c
    → IsCatalog c'
    → IsCatalog (commit c (write_links a row c')).1
unfolding commit
commit-IsCatalog a row c c' h k = elim (Result-cases (write_links a row c')) [
  | inl (x, e) ↦ rw (commit, e) h
  | inr ((b, c2), e) ↦ rw (commit, e) (IsCatalog-rows c' c2 (rows-write_links a row b c' c2 e).0 k)
]

create-IsCatalog :
    (fresh : Bytes) (now : Time) (a : Alias) (c : Catalog)
    → IsCatalog c
    → IsCatalog (create fresh now a max_aliases c).1
unfolding create
create-IsCatalog fresh now a c (k, n) =
    let row = new_row fresh now a in
    elim (Result-cases (insert_row max_aliases row c.rows)) [
      | inl (x, e) ↦ rw (create, e) (k, n)
      | inr (rows, e) ↦
          let (keyed, it, room) = insert_row-IsKeyed max_aliases row c.rows rows e k in
          let short : length rows ≤ max_aliases =
            rw (it, length-append row c.rows)
              (below_limit max_aliases (length c.rows) (omega arith) room) in
          rw (create, e) (commit-IsCatalog a row c (record c { rows = rows }) (k, n) (keyed, short))
    ]

update-IsCatalog :
    (now : Time) (a : Alias) (c : Catalog) → IsCatalog c → IsCatalog (update now a c).1
unfolding update
update-IsCatalog now a c (k, n) = elim (Option-cases (find_row a.id c.rows)) [
  | inl e ↦ rw (update, e) (k, n)
  | inr (row, e) ↦ elim (Bool-cases (name_taken a c.rows)) [
    | inl f ↦ rw (update, e, f) (k, n)
    | inr f ↦
        let short : length (update_rows now a c.rows) ≤ max_aliases =
          rw (length-update_rows now a c.rows) n in
        rw (update, e, f)
          (commit-IsCatalog a (updated_row now a row) c
            (record c { rows = update_rows now a c.rows }) (k, n)
            (update_rows-IsKeyed now a c.rows f k, short))
  ]
]

delete-IsCatalog : (id : Bytes) (c : Catalog) → IsCatalog c → IsCatalog (delete id c).1
unfolding delete
delete-IsCatalog id c (k, n) = elim (Option-cases (find_row id c.rows)) [
  | inl e ↦ rw (delete, e) (k, n)
  | inr (row, e) ↦
      rw (delete, e)
        (
          keep-IsKeyed (λ r. not (same r.id id)) c.rows k,
          omega (arith, length-keep (λ r. not (same r.id id)) c.rows, n),
        )
]

create_within_limit-IsCatalog :
    (fresh : Bytes) (now : Time) (a : Alias) (c : Catalog)
    → IsCatalog c
    → IsCatalog (create_within_limit fresh now a max_aliases c).1
unfolding create_within_limit
create_within_limit-IsCatalog fresh now a c h = create-IsCatalog fresh now a c h

serve-IsCatalog : (r : WriteRequest) (c : Catalog) → IsCatalog c → IsCatalog (serve r c)
unfolding serve handle_create handle_update handle_delete
serve-IsCatalog (create_alias fresh now a) c h = elim (Option-cases (validate_alias_write a)) [
  | inr (x, e) ↦ rw (serve, handle_create, e) h
  | inl e ↦ elim (Result-cases (create_within_limit fresh now a max_aliases c).0) [
    | inl (x, f) ↦ rw (serve, handle_create, e, f) (create_within_limit-IsCatalog fresh now a c h)
    | inr (x, f) ↦ rw (serve, handle_create, e, f) (create_within_limit-IsCatalog fresh now a c h)
  ]
]
serve-IsCatalog (update_alias now id a) c h =
    let input = record a { id = id } in
    elim (Option-cases (validate_alias_write input)) [
      | inr (x, e) ↦ rw (serve, handle_update, e) h
      | inl e ↦ elim (Result-cases (update now input c).0) [
        | inl (x, f) ↦ rw (serve, handle_update, e, f) (update-IsCatalog now input c h)
        | inr (x, f) ↦ rw (serve, handle_update, e, f) (update-IsCatalog now input c h)
      ]
    ]
serve-IsCatalog (delete_alias id) c h = elim (Option-cases (delete id c).0) [
  | inl f ↦ rw (serve, handle_delete, f) (delete-IsCatalog id c h)
  | inr (x, f) ↦ rw (serve, handle_delete, f) (delete-IsCatalog id c h)
]

-- Whatever requests the API serves, the server never holds more than `MaxAliases` aliases, and no two of
-- them have the same id or the same name, if this was so before.
pub serve_all-IsCatalog :
    (requests : List WriteRequest) (c : Catalog) → IsCatalog c → IsCatalog (serve_all requests c)
unfolding serve_all
serve_all-IsCatalog [] c h = h
serve_all-IsCatalog (r ∷ requests) c h =
    serve_all-IsCatalog requests (serve r c) (serve-IsCatalog r c h)

find_row-append :
    (row : Alias) (rows : List Alias)
    → any (row_clashes row) rows ≡ false
    → find_row row.id (rows ++ row ∷ []) ≡ some row
unfolding find_row row_clashes
find_row-append row [] h = ground (arith, same_refl row.id)
find_row-append row (r ∷ rows) h = ground (arith, h, find_row-append row rows)

find_row-insert_row :
    (limit : ℕ) (row : Alias) (rows rows' : List Alias)
    → insert_row limit row rows ≡ ok rows'
    → find_row row.id rows' ≡ some row
unfolding insert_row
find_row-insert_row limit row rows rows' h =
    elim (Bool-cases (ltb 0 limit && leb limit (length rows))) [
      | inl e ↦ ground (arith, e)
      | inr e ↦ elim (Bool-cases (any (row_clashes row) rows)) [
        | inl f ↦ ground (arith, e, f)
        | inr f ↦
            let it : rows ++ row ∷ [] ≡ rows' = ground (arith, e, f) in
            rw (sym it) (find_row-append row rows f)
      ]
    ]

-- An alias that `create` returns is what `Get` returns for its id, and has the name, the command, the
-- description, the tags, the platforms, the shells, and the sets of profiles and devices that were given.
pub get-create :
    (fresh : Bytes) (now : Time) (a b : Alias) (limit : ℕ) (c c' : Catalog)
    → create fresh now a limit c ≡ (ok b, c')
    → (get b.id c' ≡ ok b)
      × (b.name ≡ a.name)
      × (b.command ≡ a.command)
      × (b.description ≡ a.description)
      × (b.enabled ≡ a.enabled)
      × (b.platforms ≡ a.platforms)
      × (b.shells ≡ a.shells)
      × (b.tags ≡ a.tags)
      × ((q : Bytes) → In q b.profile_ids ↔ In q a.profile_ids)
      × ((q : Bytes) → In q b.device_ids ↔ In q a.device_ids)
unfolding create commit get new_row to_domain_alias
get-create fresh now a b limit c c' h =
    let row = new_row fresh now a in
    elim (Result-cases (insert_row limit row c.rows)) [
      | inl (x, e) ↦ ground (arith, e)
      | inr (rows, e) ↦ elim (Result-cases (write_links a row (record c { rows = rows }))) [
        | inl (x, f) ↦ ground (arith, e, f)
        | inr ((b', c2), f) ↦
            let (kept, read) = rows-write_links a row b' (record c { rows = rows }) c2 f in
            let alias_is : b' ≡ b = ground (arith, e, f) in
            let table_is : c2 ≡ c' = ground (arith, e, f) in
            let it : to_domain_alias c' row ≡ b =
              ap (λ u. to_domain_alias u row) (sym table_is) ∙ sym read ∙ alias_is in
            let (profiles', devices') =
              links-write_links a row b' (record c { rows = rows }) c2 f in
            let profiles = profiles' ∙ ap (λ u. ok u.profile_links) table_is in
            let devices = devices' ∙ ap (λ u. ok u.device_links) table_is in
            let there : find_row row.id c'.rows ≡ some row =
              rw (ap (λ u. u.rows) (sym table_is) ∙ kept)
                (find_row-insert_row limit row c.rows rows e) in
            subst
              (λ u.
                (get u.id c' ≡ ok u)
                × (u.name ≡ a.name)
                × (u.command ≡ a.command)
                × (u.description ≡ a.description)
                × (u.enabled ≡ a.enabled)
                × (u.platforms ≡ a.platforms)
                × (u.shells ≡ a.shells)
                × (u.tags ≡ a.tags)
                × ((q : Bytes) → In q u.profile_ids ↔ In q a.profile_ids)
                × ((q : Bytes) → In q u.device_ids ↔ In q a.device_ids))
              it
              (
                rw (get, there) refl,
                refl,
                refl,
                refl,
                refl,
                refl,
                refl,
                refl,
                λ q.
                    In-linked_ids q row.id c.profiles a.profile_ids c.profile_links
                      {out = c'.profile_links} profiles,
                λ q.
                    In-linked_ids q row.id c.devices a.device_ids c.device_links
                      {out = c'.device_links} devices,
              )
      ]
    ]
