-- ===== src/Store/AliasesLaws.antt =====
-- The alias table keeps its keys unique and its bound, and gives back what was written.
use aliasdeck.Prelude.{
  ℕ, ◌+◌, ◌≤◌, ◌≡◌, refl, sym, ap, ◌∙◌, inl, inr, Bool, false, ◌&&◌, List, [], ◌∷◌, ◌++◌, length,
  any, keep, Bool-cases, ltb, leb, if◌then◌else◌, arith,
}
use aliasdeck.Prelude.{ok, Result-cases}
use mathlib.Core.Path.{subst}
use aliasdeck.Text.{Bytes, same}
use aliasdeck.Text.Equality.{same_iff, same_refl}
use aliasdeck.Domain.Alias.{Alias, Time}
use aliasdeck.Store.Tokens.{insert_memberships}
use aliasdeck.Store.Aliases.{
  Catalog, set_alias_profiles, set_alias_devices, clear_links, to_domain_alias, write_links,
  row_clashes, insert_row, updated_row, update_rows, name_taken,
}

abbrev pub count : (Alias → Bool) → List Alias → ℕ
count p [] = 0
count p (r ∷ rows) = let rest = count p rows in if p r then rest + 1 else rest

abbrev pub has_id : Bytes → Alias → Bool
has_id id r = same r.id id

abbrev pub has_name : Bytes → Alias → Bool
has_name n r = same r.name n

-- Ids and names are unique.
pub record IsKeyed (rows : List Alias) : Type 0 where
  pub ids : (id : Bytes) → count (has_id id) rows ≤ 1
  pub names : (n : Bytes) → count (has_name n) rows ≤ 1

count-append :
    (p : Alias → Bool) (row : Alias) (rows : List Alias)
    → count p (rows ++ row ∷ []) ≡ count p rows + (if p row then 1 else 0)
count-append p row [] = ground arith
count-append p row (r ∷ rows) = ground (arith, count-append p row rows)

no_clash :
    (row : Alias) (rows : List Alias)
    → any (row_clashes row) rows ≡ false
    → (count (has_id row.id) rows ≡ 0) × (count (has_name row.name) rows ≡ 0)
unfolding row_clashes
no_clash row [] h = (refl, refl)
no_clash row (r ∷ rows) h =
    let (i, n) = no_clash row rows (ground (arith, h)) in
    (ground (arith, h, i), ground (arith, h, n))

-- A row of a new key.
count-append_unique :
    (key : Alias → Bytes) (row : Alias) (rows : List Alias)
    → count (λ r. same (key r) (key row)) rows ≡ 0
    → ((k : Bytes) → count (λ r. same (key r) k) rows ≤ 1)
    → (k : Bytes) → count (λ r. same (key r) k) (rows ++ row ∷ []) ≤ 1
count-append_unique key row rows z u k = elim (Bool-cases (same (key row) k)) [
  | inl e ↦
      let none_yet : count (λ r. same (key r) k) rows ≡ 0 =
        subst (λ t. count (λ r. same (key r) t) rows ≡ 0) ((same_iff (key row) k).0 e) z in
      rw (count-append (λ r. same (key r) k) row rows, e, none_yet) (omega arith)
  | inr e ↦ rw (count-append (λ r. same (key r) k) row rows, e) (omega (arith, u k))
]

pub insert_row-IsKeyed :
    (limit : ℕ) (row : Alias) (rows rows' : List Alias)
    → insert_row limit row rows ≡ ok rows'
    → IsKeyed rows
    → IsKeyed rows' × (rows' ≡ rows ++ row ∷ []) × (ltb 0 limit && leb limit (length rows) ≡ false)
unfolding insert_row
insert_row-IsKeyed limit row rows rows' h k =
    elim (Bool-cases (ltb 0 limit && leb limit (length rows))) [
      | inl e ↦ ground (arith, e)
      | inr e ↦ elim (Bool-cases (any (row_clashes row) rows)) [
        | inl f ↦ ground (arith, e, f)
        | inr f ↦
            let it : rows ++ row ∷ [] ≡ rows' = ground (arith, e, f) in
            let (i, n) = no_clash row rows f in
            (
              subst IsKeyed it (record {
                ids = count-append_unique (λ r. r.id) row rows i k.ids;
                names = count-append_unique (λ r. r.name) row rows n k.names;
              }),
              sym it,
              e,
            )
      ]
    ]

ids-update_rows :
    (id : Bytes) (now : Time) (a : Alias) (rows : List Alias)
    → count (has_id id) (update_rows now a rows) ≡ count (has_id id) rows
unfolding update_rows updated_row
ids-update_rows id now a [] = refl
ids-update_rows id now a (r ∷ rows) = ground (arith, ids-update_rows id now a rows)

pub length-update_rows :
    (now : Time) (a : Alias) (rows : List Alias) → length (update_rows now a rows) ≡ length rows
unfolding update_rows
length-update_rows now a [] = refl
length-update_rows now a (r ∷ rows) = ground (arith, length-update_rows now a rows)

-- Behind an update the new name stands in the updated rows alone.
new_name-update_rows :
    (now : Time) (a : Alias) (rows : List Alias)
    → name_taken a rows ≡ false
    → count (has_name a.name) (update_rows now a rows) ≤ count (has_id a.id) rows
unfolding update_rows updated_row name_taken
new_name-update_rows now a [] h = omega arith
new_name-update_rows now a (r ∷ rows) h =
    let later = new_name-update_rows now a rows (ground (arith, h)) in
    ground (arith, h, later, same_refl a.name)

-- Another name stands in no more rows than before.
other_name-update_rows :
    (n : Bytes) (now : Time) (a : Alias) (rows : List Alias)
    → same a.name n ≡ false
    → count (has_name n) (update_rows now a rows) ≤ count (has_name n) rows
unfolding update_rows updated_row
other_name-update_rows n now a [] h = omega arith
other_name-update_rows n now a (r ∷ rows) h =
    ground (arith, h, other_name-update_rows n now a rows h)

pub update_rows-IsKeyed :
    (now : Time) (a : Alias) (rows : List Alias)
    → name_taken a rows ≡ false
    → IsKeyed rows
    → IsKeyed (update_rows now a rows)
update_rows-IsKeyed now a rows h k = record {
  ids = λ id. rw (ids-update_rows id now a rows) (k.ids id);
  names = λ n. elim (Bool-cases (same a.name n)) [
    | inl e ↦
        subst (λ t. count (has_name t) (update_rows now a rows) ≤ 1) ((same_iff a.name n).0 e)
          (omega (arith, new_name-update_rows now a rows h, k.ids a.id))
    | inr e ↦ omega (arith, other_name-update_rows n now a rows e, k.names n)
  ];
}

count-keep : (q p : Alias → Bool) (rows : List Alias) → count q (keep p rows) ≤ count q rows
count-keep q p [] = omega arith
count-keep q p (r ∷ rows) = ground (arith, count-keep q p rows)

pub length-keep : (p : Alias → Bool) (rows : List Alias) → length (keep p rows) ≤ length rows
length-keep p [] = omega arith
length-keep p (r ∷ rows) = ground (arith, length-keep p rows)

pub keep-IsKeyed : (p : Alias → Bool) (rows : List Alias) → IsKeyed rows → IsKeyed (keep p rows)
keep-IsKeyed p rows k = record {
  ids = λ id. omega (arith, count-keep (has_id id) p rows, k.ids id);
  names = λ n. omega (arith, count-keep (has_name n) p rows, k.names n);
}

-- Links leave the rows alone.
pub rows-write_links :
    (a row b : Alias) (c c' : Catalog)
    → write_links a row c ≡ ok (b, c')
    → (c'.rows ≡ c.rows) × (b ≡ to_domain_alias c' row)
unfolding write_links set_alias_profiles set_alias_devices
rows-write_links a row b c c' h =
    elim (Result-cases
      (insert_memberships row.id c.profiles a.profile_ids (clear_links row.id c.profile_links))) [
        | inl (x, e) ↦ ground (arith, e)
        | inr (links, e) ↦
            elim (Result-cases (
              insert_memberships row.id c.devices a.device_ids
                (clear_links row.id c.device_links))) [
                  | inl (x, f) ↦ ground (arith, e, f)
                  | inr (links', f) ↦
                      let it : record c { profile_links = links; device_links = links' } ≡ c' =
                        ground (arith, e, f) in
                      let read : to_domain_alias
                            (record c { profile_links = links; device_links = links' }) row
                          ≡ b =
                        ground (arith, e, f) in
                      (ap (λ u. u.rows) (sym it), sym read ∙ ap (λ u. to_domain_alias u row) it)
                ]
      ]
