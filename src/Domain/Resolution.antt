-- ===== src/Domain/Resolution.antt =====
-- What `Resolve` returns, whatever the order of the source.
use aliasdeck.Prelude.{
  ◌≡◌, ◌≢◌, refl, sym, ap, ◌∙◌, ◌↔◌, inl, inr, Bool, true, List, [], ◌∷◌, keep, All, In, Bool-cases,
  arith,
}
use mathlib.Core.Path.{subst}
use aliasdeck.Text.{Bytes, same, text_leb}
use aliasdeck.Text.Equality.{same_iff, same_refl}
use aliasdeck.Domain.Alias.{Alias, Device, applies_to}
use aliasdeck.Domain.Sort.{
  IsSorted, named, sort_aliases-IsSorted, named-sort_aliases, sorted_unique,
}
use aliasdeck.Domain.Resolved.{
  insert_alias, sort_aliases, revision_input, compute_revision, resolve,
}

-- No name is used twice.
abbrev pub DistinctNames : List Alias → Type 0
DistinctNames [] = Unit
DistinctNames (a ∷ aliases) = All (λ b. b.name ≢ a.name) aliases × DistinctNames aliases

-- The same members.
abbrev pub SameMembers : List Alias → List Alias → Type 0
SameMembers xs ys = (a : Alias) → In a xs ↔ In a ys

In-insert_alias : (x a : Alias) (bs : List Alias) → In x (insert_alias a bs) ↔ In x (a ∷ bs)
unfolding insert_alias
In-insert_alias x a [] = (λ h. h, λ h. h)
In-insert_alias x a (b ∷ bs) = elim (Bool-cases (text_leb a.name b.name)) [
  | inl e ↦ rw e ((λ h. h, λ h. h))
  | inr e ↦
      let (to, from) = In-insert_alias x a bs in
      rw e (
        (
          λ h. elim h [
            | inl e1 ↦ inr (inl e1)
            | inr i ↦ elim (to i) [ inl e2 ↦ inl e2 | inr j ↦ inr (inr j) ]
          ],
          λ h. elim h [
            | inl e1 ↦ inr (from (inl e1))
            | inr i ↦ elim i [ inl e2 ↦ inl e2 | inr j ↦ inr (from (inr j)) ]
          ],
        ))
]

pub In-sort_aliases :
    (x : Alias) (aliases : List Alias) → In x (sort_aliases aliases) ↔ In x aliases
unfolding sort_aliases
In-sort_aliases x [] = (λ h. h, λ h. h)
In-sort_aliases x (a ∷ aliases) =
    let (to, from) = In-insert_alias x a (sort_aliases aliases) in
    let (to', from') = In-sort_aliases x aliases in
    (
      λ h. elim (to h) [ inl e ↦ inl e | inr i ↦ inr (to' i) ],
      λ h. elim h [ inl e ↦ from (inl e) | inr i ↦ from (inr (from' i)) ],
    )

pub In-keep :
    {A : Type 0} (p : A → Bool) (x : A) (xs : List A) → In x (keep p xs) ↔ (In x xs × (p x ≡ true))
In-keep p x [] = (λ h. absurd h, λ h. absurd h.0)
In-keep p x (a ∷ xs) = elim (Bool-cases (p a)) [
  | inl e ↦ rw e (
      (
        λ h. elim h [
          | inl q ↦ (inl q, rw (← q) e)
          | inr i ↦ let (j, k) = (In-keep p x xs).0 i in (inr j, k)
        ],
        λ (h, k). elim h [ inl q ↦ inl q | inr i ↦ inr ((In-keep p x xs).1 (i, k)) ],
      ))
  | inr e ↦ rw e (
      (
        λ h. let (j, k) = (In-keep p x xs).0 h in (inr j, k),
        λ (h, k). elim h [ inl q ↦ cc (ap p q) | inr i ↦ (In-keep p x xs).1 (i, k) ],
      ))
]

pub All-keep :
    {A : Type 0} (P : A → Type 0) (p : A → Bool) (xs : List A) → All P xs → All P (keep p xs)
All-keep P p [] h = tt
All-keep P p (x ∷ xs) h = ground (arith, All-keep P p xs h.1)

-- With distinct names the aliases of one name are one alias or none.
named_absent : (n : Bytes) (xs : List Alias) → All (λ b. b.name ≢ n) xs → named n xs ≡ []
named_absent n [] h = refl
named_absent n (x ∷ xs) h = ground (arith, same_iff x.name n, named_absent n xs h.1)

pub All-In : {A : Type 0} (P : A → Type 0) {a : A} (xs : List A) → All P xs → In a xs → P a
All-In P [] h i = absurd i
All-In P (x ∷ xs) h (inl e) = subst P e h.0
All-In P (x ∷ xs) h (inr i) = All-In P xs h.1 i

named_of_In : (a : Alias) (xs : List Alias) → DistinctNames xs → In a xs → named a.name xs ≡ a ∷ []
named_of_In a [] h i = absurd i
named_of_In a (x ∷ xs) h (inl e) = ground (arith, e, same_refl x.name, named_absent x.name xs h.0)
named_of_In a (x ∷ xs) h (inr i) =
    let other : a.name ≢ x.name = All-In (λ b. b.name ≢ x.name) xs h.0 i in
    ground (arith, same_iff x.name a.name, named_of_In a xs h.1 i)

-- One direction of the next lemma, from the first alias of the name.
named_found :
    (n : Bytes) (xs ys : List Alias) (b : Alias) (rest : List Alias)
    → DistinctNames xs
    → DistinctNames ys
    → SameMembers xs ys
    → named n xs ≡ b ∷ rest
    → named n xs ≡ named n ys
named_found n xs ys b rest h k m e =
    let (i, s) = (In-keep (λ a. same a.name n) b xs).0 (rw e (inl refl)) in
    let name : b.name ≡ n = (same_iff b.name n).0 s in
    rw (← name) (named_of_In b xs h i ∙ sym (named_of_In b ys k ((m b).0 i)))

named_same :
    (n : Bytes) (xs ys : List Alias)
    → DistinctNames xs
    → DistinctNames ys
    → SameMembers xs ys
    → named n xs ≡ named n ys
named_same n xs ys h k m = go (named n xs) (named n ys) refl refl
  where
    go : (p q : List Alias) → named n xs ≡ p → named n ys ≡ q → named n xs ≡ named n ys
    go [] [] e f = e ∙ sym f
    go (b ∷ rest) q e f = named_found n xs ys b rest h k m e
    go [] (b ∷ rest) e f = sym (named_found n ys xs b rest k h (λ a. ((m a).1, (m a).0)) f)

DistinctNames-keep :
    (p : Alias → Bool) (xs : List Alias) → DistinctNames xs → DistinctNames (keep p xs)
DistinctNames-keep p [] h = tt
DistinctNames-keep p (x ∷ xs) h =
    ground (arith, DistinctNames-keep p xs h.1, All-keep (λ b. b.name ≢ x.name) p xs h.0)

sort_aliases-SameMembers :
    (xs ys : List Alias)
    → DistinctNames xs
    → DistinctNames ys
    → SameMembers xs ys
    → sort_aliases xs ≡ sort_aliases ys
sort_aliases-SameMembers xs ys h k m =
    sorted_unique (sort_aliases xs) (sort_aliases ys) (sort_aliases-IsSorted xs)
      (sort_aliases-IsSorted ys)
      λ n. named-sort_aliases n xs ∙ named_same n xs ys h k m ∙ sym (named-sort_aliases n ys)

-- Sorting again changes nothing.
pub sort_aliases_idem : (xs : List Alias) → sort_aliases (sort_aliases xs) ≡ sort_aliases xs
sort_aliases_idem xs =
    sorted_unique _ _ (sort_aliases-IsSorted (sort_aliases xs)) (sort_aliases-IsSorted xs)
      λ n. named-sort_aliases n (sort_aliases xs)

module _ (hash : Bytes → Bytes) where
  -- A resolved configuration is sorted, its revision is the one that `ComputeRevision` gives for it, and
  -- it holds exactly the aliases of the source that apply to the device.
  pub resolve_lem :
      (dev : Device) (aliases : List Alias)
      → let c = resolve hash dev aliases in
        IsSorted c.aliases
        × (c.revision ≡ compute_revision hash c)
        × ((a : Alias) → In a c.aliases ↔ (In a aliases × (applies_to a dev ≡ true)))
  unfolding resolve compute_revision revision_input
  resolve_lem dev aliases = (
    sort_aliases-IsSorted _,
    refl,
    λ a. (
      λ i. (In-keep _ a aliases).0 ((In-sort_aliases a _).0 i),
      λ h. (In-sort_aliases a _).1 ((In-keep (λ b. applies_to b dev) a aliases).1 h),
    ),
  )

  -- Two lists with the same aliases, each with distinct names, are resolved for a device to the same
  -- configuration: the order in which a source lists its aliases does not matter.
  pub resolve-SameMembers :
      (dev : Device) (xs ys : List Alias)
      → DistinctNames xs
      → DistinctNames ys
      → SameMembers xs ys
      → resolve hash dev xs ≡ resolve hash dev ys
  unfolding resolve
  resolve-SameMembers dev xs ys h k m =
      let applies : Alias → Bool = λ a. applies_to a dev in
      rw (
        sort_aliases-SameMembers (keep applies xs) (keep applies ys)
          (DistinctNames-keep applies xs h) (DistinctNames-keep applies ys k)
          λ a. (
            λ i. let (j, q) = (In-keep applies a xs).0 i in (In-keep applies a ys).1 ((m a).0 j, q),
            λ i. let (j, q) = (In-keep applies a ys).0 i in (In-keep applies a xs).1 ((m a).1 j, q),
          ))
