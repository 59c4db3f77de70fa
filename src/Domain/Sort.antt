-- ===== src/Domain/Sort.antt =====
-- The order that `SortAliases` leaves: sorted by name, stable, and determined by that.
use aliasdeck.Prelude.{◌≡◌, refl, ◌∙◌, inl, inr, true, List, [], ◌∷◌, keep, All, Bool-cases, arith}
use aliasdeck.Text.{Bytes, same, text_leb}
use aliasdeck.Text.Equality.{same_iff, same_refl}
use aliasdeck.Text.Order.{text_leb_refl, text_leb_total, text_leb_trans, text_leb_antisym}
use aliasdeck.Domain.Alias.{Alias}
use aliasdeck.Domain.Resolved.{insert_alias, sort_aliases}

abbrev pub Before : Alias → Alias → Type 0
Before a b = text_leb a.name b.name ≡ true

abbrev pub IsSorted : List Alias → Type 0
IsSorted [] = Unit
IsSorted (a ∷ aliases) = All (Before a) aliases × IsSorted aliases

-- The aliases of one name, in their order.
abbrev pub named : Bytes → List Alias → List Alias
named n = keep (λ a. same a.name n)

All-Before : (a b : Alias) (cs : List Alias) → Before a b → All (Before b) cs → All (Before a) cs
All-Before a b [] h k = tt
All-Before a b (c ∷ cs) h k = (text_leb_trans a.name b.name c.name h k.0, All-Before a b cs h k.1)

All-insert_alias :
    (P : Alias → Type 0) (a : Alias) (bs : List Alias) → P a → All P bs → All P (insert_alias a bs)
unfolding insert_alias
All-insert_alias P a [] h k = (h, tt)
All-insert_alias P a (b ∷ bs) h k = ground (arith, All-insert_alias P a bs h k.1)

insert_alias-IsSorted : (a : Alias) (bs : List Alias) → IsSorted bs → IsSorted (insert_alias a bs)
unfolding insert_alias
insert_alias-IsSorted a [] h = (tt, tt)
insert_alias-IsSorted a (b ∷ bs) h = elim (Bool-cases (text_leb a.name b.name)) [
  | inl e ↦ rw e ((e, All-Before a b bs e h.0), h)
  | inr e ↦ rw e (
    All-insert_alias (Before b) a bs (text_leb_total a.name b.name e) h.0,
    insert_alias-IsSorted a bs h.1,
  )
]

-- `SortAliases` gives a list that is sorted by name.
pub sort_aliases-IsSorted : (aliases : List Alias) → IsSorted (sort_aliases aliases)
unfolding sort_aliases
sort_aliases-IsSorted [] = tt
sort_aliases-IsSorted (a ∷ aliases) =
    insert_alias-IsSorted a (sort_aliases aliases) (sort_aliases-IsSorted aliases)

named-insert_alias :
    (n : Bytes) (a : Alias) (bs : List Alias) → named n (insert_alias a bs) ≡ named n (a ∷ bs)
unfolding insert_alias
named-insert_alias n a [] = refl
named-insert_alias n a (b ∷ bs) =
    ground (arith, named-insert_alias n a bs, same_iff a.name n, same_iff b.name n, text_leb_refl n)

-- `SortAliases` keeps the aliases of each name, all of them and in their order.
pub named-sort_aliases :
    (n : Bytes) (aliases : List Alias) → named n (sort_aliases aliases) ≡ named n aliases
unfolding sort_aliases
named-sort_aliases n [] = refl
named-sort_aliases n (a ∷ aliases) =
    named-insert_alias n a (sort_aliases aliases) ∙ ground (arith, named-sort_aliases n aliases)

Before_of_named :
    (z : Alias) (zs : List Alias) (n : Bytes) {y : Alias} {rest : List Alias}
    → IsSorted (z ∷ zs)
    → named n (z ∷ zs) ≡ y ∷ rest
    → text_leb z.name n ≡ true
Before_of_named z [] n h e = ground (arith, same_iff z.name n, text_leb_refl n)
Before_of_named z (w ∷ zs) n {y} {rest} h e = elim (Bool-cases (same z.name n)) [
  | inl s ↦ rw ((same_iff z.name n).0 s) (text_leb_refl n)
  | inr s ↦
      text_leb_trans z.name w.name n h.0.0
        (Before_of_named w zs n {y = y} {rest = rest} h.1 (rw s at e))
]

-- A sorted list is determined by the aliases of each name in their order.
pub sorted_unique :
    (ys zs : List Alias)
    → IsSorted ys
    → IsSorted zs
    → ((n : Bytes) → named n ys ≡ named n zs)
    → ys ≡ zs
sorted_unique [] [] h k e = refl
sorted_unique [] (z ∷ zs) h k e = ground (arith, e z.name, same_refl z.name)
sorted_unique (y ∷ ys) [] h k e = ground (arith, e y.name, same_refl y.name)
sorted_unique (y ∷ ys) (z ∷ zs) h k e =
    let first : named y.name (z ∷ zs) ≡ y ∷ named y.name ys =
      ground (arith, e y.name, same_refl y.name) in
    let other : named z.name (y ∷ ys) ≡ z ∷ named z.name zs =
      ground (arith, e z.name, same_refl z.name) in
    let names : y.name ≡ z.name =
      text_leb_antisym y.name z.name (Before_of_named y ys z.name h other)
        (Before_of_named z zs y.name k first) in
    let heads : y ≡ z = ground (arith, first, names, same_refl z.name) in
    let rest : ys ≡ zs = sorted_unique ys zs h.1 k.1 (λ n. ground (arith, e n, heads)) in
    ground arith

pub All-sort_aliases :
    (P : Alias → Type 0) (aliases : List Alias) → All P aliases → All P (sort_aliases aliases)
unfolding sort_aliases
All-sort_aliases P [] h = tt
All-sort_aliases P (a ∷ aliases) h =
    All-insert_alias P a (sort_aliases aliases) h.0 (All-sort_aliases P aliases h.1)
