-- ===== src/Domain/Revision.antt =====
-- The revision is a hash of an unambiguous encoding.
use aliasdeck.Prelude.{ℕ, ◌≡◌, ◌≢◌, refl, sym, ◌↔◌, List, [], ◌∷◌, ◌++◌, append_assoc, All, arith}
use mathlib.Core.List.{map, flat_map}
use aliasdeck.Text.{Bytes}
use aliasdeck.Text.Search.{Lacks}
use aliasdeck.Domain.Alias.{Alias}
use aliasdeck.Domain.Sort.{All-sort_aliases}
use aliasdeck.Domain.Resolved.{
  ResolvedConfig, sort_aliases, write_field, alias_fields, revision_input,
}

-- What of an alias a rendering can show.
abbrev pub content : Alias → Bytes × Bytes × Bytes
content a = (a.name, a.command, a.description)

abbrev pub IsNulFreeAlias : Alias → Type 0
IsNulFreeAlias a = Lacks 0 a.name × Lacks 0 a.command × Lacks 0 a.description

-- No field that enters the revision holds a NUL.
abbrev pub IsNulFree : ResolvedConfig → Type 0
IsNulFree c = Lacks 0 c.device.platform × Lacks 0 c.device.shell × All IsNulFreeAlias c.aliases

nul_terminated_injective :
    (p q r s : Bytes) → Lacks 0 p → Lacks 0 q → p ++ 0 ∷ r ≡ q ++ 0 ∷ s → (p ≡ q) × (r ≡ s)
nul_terminated_injective [] [] r s h k e = ground arith
nul_terminated_injective [] (d ∷ q) r s h k e = ground arith
nul_terminated_injective (c ∷ p) [] r s h k e = ground arith
nul_terminated_injective (c ∷ p) (d ∷ q) r s h k e =
    ground (arith, nul_terminated_injective p q r s h.1 k.1)

alias_fields-append :
    (a : Alias) (r : Bytes)
    → alias_fields a ++ r ≡ a.name ++ 0 ∷ (a.command ++ 0 ∷ (a.description ++ 0 ∷ 0x1E ∷ r))
unfolding alias_fields write_field
alias_fields-append a r = simp append_assoc

alias_fields-injective :
    (a b : Alias) (r s : Bytes)
    → IsNulFreeAlias a
    → IsNulFreeAlias b
    → alias_fields a ++ r ≡ alias_fields b ++ s
    → (content a ≡ content b) × (r ≡ s)
alias_fields-injective a b r s (ha, hb, hc) (ka, kb, kc) e =
    let e' = rw (alias_fields-append a r, alias_fields-append b s) at e in
    let (names, e1) = nul_terminated_injective a.name b.name _ _ ha ka e' in
    let (commands, e2) = nul_terminated_injective a.command b.command _ _ hb kb e1 in
    let (descriptions, e3) = nul_terminated_injective a.description b.description _ _ hc kc e2 in
    ground arith

append-ne-nil : (p r : Bytes) (c : ℕ) → [] ≢ p ++ c ∷ r
append-ne-nil [] r c e = cc
append-ne-nil (d ∷ p) r c e = cc

alias_fields-ne-nil : (a : Alias) (r : Bytes) → [] ≢ alias_fields a ++ r
alias_fields-ne-nil a r e = append-ne-nil a.name _ 0 (rw (alias_fields-append a r) at e)

aliases_injective :
    (xs ys : List Alias)
    → All IsNulFreeAlias xs
    → All IsNulFreeAlias ys
    → flat_map alias_fields xs ≡ flat_map alias_fields ys
    → map content xs ≡ map content ys
unfolding flat_map
aliases_injective [] [] h k e = refl
aliases_injective [] (b ∷ ys) h k e = absurd (alias_fields-ne-nil b _ e)
aliases_injective (a ∷ xs) [] h k e = absurd (alias_fields-ne-nil a _ (sym e))
aliases_injective (a ∷ xs) (b ∷ ys) h k e =
    let (heads, rest) = alias_fields-injective a b _ _ h.0 k.0 e in
    ground (arith, aliases_injective xs ys h.1 k.1 rest)

revision_input-append :
    (c : ResolvedConfig)
    → revision_input c
      ≡ c.device.platform
        ++ 0 ∷ (c.device.shell ++ 0 ∷ 0x1E ∷ flat_map alias_fields (sort_aliases c.aliases))
unfolding revision_input write_field
revision_input-append c = simp append_assoc

-- Equal content gives equal bytes.
pub flat_map-content :
    (xs ys : List Alias)
    → map content xs ≡ map content ys
    → flat_map alias_fields xs ≡ flat_map alias_fields ys
unfolding flat_map alias_fields
flat_map-content [] [] e = refl
flat_map-content [] (b ∷ ys) e = cc
flat_map-content (a ∷ xs) [] e = cc
flat_map-content (a ∷ xs) (b ∷ ys) e = ground (arith, flat_map-content xs ys)

-- Two configurations without NUL bytes are hashed from the same bytes exactly when they agree on
-- platform, shell, and the name, command and description of the sorted aliases.
pub revision_input_iff :
    (c d : ResolvedConfig)
    → IsNulFree c
    → IsNulFree d
    → (revision_input c ≡ revision_input d) ↔ (
        (c.device.platform ≡ d.device.platform)
        × (c.device.shell ≡ d.device.shell)
        × (map content (sort_aliases c.aliases) ≡ map content (sort_aliases d.aliases)))
revision_input_iff c d h k = (
  λ e.
      let e' = rw (revision_input-append c, revision_input-append d) at e in
      let (platforms, e1) =
        nul_terminated_injective c.device.platform d.device.platform _ _ h.0 k.0 e' in
      let (shells, e2) = nul_terminated_injective c.device.shell d.device.shell _ _ h.1 k.1 e1 in
      let rest : flat_map alias_fields (sort_aliases c.aliases)
          ≡ flat_map alias_fields (sort_aliases d.aliases) =
        ground arith in
      (
        platforms,
        shells,
        aliases_injective _ _ (All-sort_aliases _ c.aliases h.2) (All-sort_aliases _ d.aliases k.2)
            rest,
      ),
  λ (p, s, e). rw (revision_input-append c, revision_input-append d, p, s, flat_map-content _ _ e),
)
