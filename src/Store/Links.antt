-- ===== src/Store/Links.antt =====
-- The links of an alias are read back as they were written.
use aliasdeck.Prelude.{
  ◌≡◌, refl, sym, ap, ◌∙◌, ◌↔◌, inl, inr, ◌||◌, List, [], ◌∷◌, ◌++◌, In, Bool-cases, arith,
}
use aliasdeck.Prelude.{ok, Result-cases}
use aliasdeck.Text.{Bytes, same, contains_text}
use aliasdeck.Text.Equality.{same_refl, contains_text_iff}
use aliasdeck.Store.Tokens.{insert_memberships}
use aliasdeck.Domain.Alias.{Alias}
use aliasdeck.Store.Aliases.{
  Catalog, insert_id, linked_ids, clear_links, set_alias_profiles, set_alias_devices, write_links,
}

contains_text-insert_id :
    (q x : Bytes) (ids : List Bytes)
    → contains_text (insert_id x ids) q ≡ (same x q || contains_text ids q)
unfolding insert_id contains_text
contains_text-insert_id q x [] = ground arith
contains_text-insert_id q x (y ∷ ids) = ground (arith, contains_text-insert_id q x ids)

linked_ids-clear_links :
    (id : Bytes) (links : List (Bytes × Bytes)) → linked_ids id (clear_links id links) ≡ []
unfolding linked_ids clear_links
linked_ids-clear_links id [] = refl
linked_ids-clear_links id ((a, p) ∷ links) = elim (Bool-cases (same a id)) [
  | inl e ↦ ground (arith, e, linked_ids-clear_links id links)
  | inr e ↦ ground (arith, e, linked_ids-clear_links id links)
]

contains_text-linked_ids :
    (q id p : Bytes) (links : List (Bytes × Bytes))
    → contains_text (linked_ids id (links ++ (id, p) ∷ [])) q
      ≡ (same p q || contains_text (linked_ids id links) q)
unfolding linked_ids
contains_text-linked_ids q id p [] = rw (same_refl id, contains_text-insert_id q p []) refl
contains_text-linked_ids q id p ((a, s) ∷ links) = elim (Bool-cases (same a id)) [
  | inl e ↦ ground (
    arith,
    e,
    contains_text-linked_ids q id p links,
    contains_text-insert_id q s (linked_ids id links),
    contains_text-insert_id q s (linked_ids id (links ++ (id, p) ∷ [])),
  )
  | inr e ↦ ground (arith, e, contains_text-linked_ids q id p links)
]

contains_text-insert_memberships :
    (q id : Bytes) (known ids : List Bytes) (links : List (Bytes × Bytes))
    {out : List (Bytes × Bytes)}
    → insert_memberships id known ids links ≡ ok out
    → contains_text (linked_ids id out) q
      ≡ (contains_text ids q || contains_text (linked_ids id links) q)
unfolding insert_memberships contains_text
contains_text-insert_memberships q id known [] links {out} h = ground (arith, h)
contains_text-insert_memberships q id known (p ∷ ids) links {out} h =
    let front : insert_memberships id known ids (links ++ (id, p) ∷ []) ≡ ok out =
      ground (arith, h) in
    ground (
      arith,
      contains_text-insert_memberships q id known ids (links ++ (id, p) ∷ []) {out = out} front,
      contains_text-linked_ids q id p links,
    )

-- The ids that are read back are those that were set.
pub In-linked_ids :
    (q id : Bytes) (known ids : List Bytes) (links : List (Bytes × Bytes))
    {out : List (Bytes × Bytes)}
    → insert_memberships id known ids (clear_links id links) ≡ ok out
    → In q (linked_ids id out) ↔ In q ids
unfolding contains_text
In-linked_ids q id known ids links {out} h =
    let read =
      contains_text-insert_memberships q id known ids (clear_links id links) {out = out} h in
    let nothing = linked_ids-clear_links id links in
    let both : contains_text (linked_ids id out) q ≡ contains_text ids q =
      ground (arith, read, ap (λ u. contains_text u q) nothing) in
    (
      λ i. (contains_text_iff ids q).0 (sym both ∙ (contains_text_iff (linked_ids id out) q).1 i),
      λ i. (contains_text_iff (linked_ids id out) q).0 (both ∙ (contains_text_iff ids q).1 i),
    )

-- The links behind a write are those of the alias.
pub links-write_links :
    (a row b : Alias) (c c' : Catalog)
    → write_links a row c ≡ ok (b, c')
    → (insert_memberships row.id c.profiles a.profile_ids (clear_links row.id c.profile_links)
        ≡ ok c'.profile_links)
      × (insert_memberships row.id c.devices a.device_ids (clear_links row.id c.device_links)
          ≡ ok c'.device_links)
unfolding write_links set_alias_profiles set_alias_devices
links-write_links a row b c c' h =
    elim (Result-cases
      (insert_memberships row.id c.profiles a.profile_ids (clear_links row.id c.profile_links))) [
        | inl (x, e) ↦ ground (arith, e)
        | inr (links, e) ↦
            elim (Result-cases (
              insert_memberships row.id c.devices a.device_ids
                (clear_links row.id c.device_links))) [
                  | inl (x, f) ↦ ground (arith, e, f)
                  | inr (links', f) ↦
                      let it : record c { profile_links = links; device_links = links' } ≡ c' =
                        ground (arith, e, f) in
                      (e ∙ ap (λ u. ok u.profile_links) it, f ∙ ap (λ u. ok u.device_links) it)
                ]
      ]
