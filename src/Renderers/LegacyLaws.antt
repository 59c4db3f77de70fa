-- ===== src/Renderers/LegacyLaws.antt =====
-- What the reader of earlier files accepts.
use aliasdeck.Prelude.{
  ℕ, zero, suc, ◌≡◌, sym, ◌⊎◌, inl, inr, true, false, List, [], ◌∷◌, ◌++◌, Option, none, some, All,
  length, Option-cases, is_some, arith,
}
use aliasdeck.Text.{Bytes, newline, split, cut, text_leb}
use aliasdeck.Text.Equality.{same_iff}
use aliasdeck.Domain.Shell.{Shell}
use aliasdeck.Validate.Name.{check_name}
use aliasdeck.Validate.NameLaws.{IsValidName, check_name_iff}
use aliasdeck.Renderers.Quote.{quote_posix}
use aliasdeck.Renderers.Legacy.{
  legacy_migration_prefix, legacy_migration_suffix, managed_aliases_guard_line,
  parse_legacy_alias_count, inside_quotes, decode_quoted_posix, parse_legacy_alias_line,
}
use aliasdeck.Renderers.LegacyFile.{
  skip_description, follows, take_alias, take_block, legacy_names, legacy_lines,
  parse_legacy_posix_aliases, ordered_names, marker_names, parse_current_legacy_migration,
}

-- The decoder never misreads: a quoted text that it accepts is the quoted form of the text it returns.
pub decode_quoted_posix_sound :
    (value decoded : Bytes) → decode_quoted_posix value ≡ some decoded → quote_posix decoded ≡ value
unfolding decode_quoted_posix
decode_quoted_posix_sound value decoded h = elim (Option-cases (inside_quotes value)) [
  | inl e ↦ ground (arith, e)
  | inr (inner, e) ↦ (same_iff (quote_posix decoded) value).0 (ground (arith, e))
]

parse_legacy_alias_line-valid :
    (line : Bytes) (sh : Shell) {name : Bytes}
    → parse_legacy_alias_line line sh ≡ some name
    → is_some (check_name name sh) ≡ false
unfolding parse_legacy_alias_line
parse_legacy_alias_line-valid line sh h = ground arith

take_alias-valid :
    (sh : Shell) (last : Option Bytes) (lines : List Bytes) {name : Bytes} {rest : List Bytes}
    → take_alias sh last lines ≡ some (name, rest)
    → (is_some (check_name name sh) ≡ false) × (follows last name ≡ true)
unfolding take_alias
take_alias-valid sh last [] h = cc
take_alias-valid sh last (l ∷ []) h = cc
take_alias-valid sh last (l ∷ m ∷ lines) {name} h =
    elim (Option-cases (parse_legacy_alias_line l sh)) [
      | inl e ↦ ground (arith, e)
      | inr (n, e) ↦ ground (arith, e, parse_legacy_alias_line-valid l sh {name = n} e)
    ]

take_block-valid :
    (sh : Shell) (last : Option Bytes) (lines : List Bytes) {name : Bytes} {rest : List Bytes}
    → take_block sh last lines ≡ some (name, rest)
    → (is_some (check_name name sh) ≡ false) × (follows last name ≡ true)
unfolding take_block
take_block-valid sh last [] h = cc
take_block-valid sh last (l ∷ []) h = cc
take_block-valid sh last (l ∷ m ∷ lines) {name} {rest} h =
    elim (Option-cases (skip_description (m ∷ lines))) [
      | inl e ↦ ground (arith, e)
      | inr (ls, e) ↦ ground (arith, e, take_alias-valid sh last ls {name = name} {rest = rest})
    ]

legacy_names-ordered :
    (sh : Shell) (n : ℕ) (last : Option Bytes) (lines : List Bytes) {names : List Bytes}
    → legacy_names sh n last lines ≡ some names
    → (length names ≡ n) × (ordered_names sh last names ≡ true)
unfolding legacy_names ordered_names
legacy_names-ordered sh zero last lines h = ground arith
legacy_names-ordered sh (suc n) last lines {names} h =
    elim (Option-cases (take_block sh last lines)) [
      | inl e ↦ ground (arith, e)
      | inr ((name, rest), e) ↦ elim (Option-cases (legacy_names sh n (some name) rest)) [
        | inl f ↦ ground (arith, e, f)
        | inr (more, f) ↦
            let (v, o) = take_block-valid sh last lines {name = name} {rest = rest} e in
            let (len, ord) = legacy_names-ordered sh n (some name) rest {names = more} f in
            let made : name ∷ more ≡ names = ground (arith, e, f) in
            rw (sym made) (ground (arith, v, o, len, ord))
      ]
    ]

legacy_lines-ordered :
    (sh : Shell) (lines : List Bytes) {names : List Bytes}
    → legacy_lines sh lines ≡ some names
    → ordered_names sh none names ≡ true
unfolding legacy_lines
legacy_lines-ordered sh (l0 ∷ l1 ∷ l2 ∷ l3 ∷ l4 ∷ l5 ∷ l6 ∷ l7 ∷ l8 ∷ rest) {names} h =
    elim (Option-cases (parse_legacy_alias_count l4)) [
      | inl e ↦ ground (arith, e)
      | inr (count, e) ↦
          ground (arith, e, legacy_names-ordered sh count none (l8 ∷ rest) {names = names})
    ]
legacy_lines-ordered sh _ h = cc

marker_names-ordered :
    (sh : Shell) (raw : Bytes) {names : List Bytes}
    → marker_names sh raw ≡ some names
    → ordered_names sh none names ≡ true
unfolding marker_names
marker_names-ordered sh raw h = ground arith

current-ordered :
    (sh : Shell) (contents : Bytes) {names : List Bytes}
    → parse_current_legacy_migration contents sh ≡ some names
    → ordered_names sh none names ≡ true
unfolding parse_current_legacy_migration
current-ordered sh contents {names} h = elim (Option-cases (cut legacy_migration_prefix contents)) [
  | inl e ↦ ground (arith, e)
  | inr ((before, rest), e) ↦
      elim (Option-cases (cut (legacy_migration_suffix ++ managed_aliases_guard_line) rest)) [
        | inl f ↦ ground (arith, e, f)
        | inr ((raw, behind), f) ↦
            marker_names-ordered sh raw {names = names} (ground (arith, e, f))
      ]
]

-- Each name is above the one before it, in the order of `strings.Compare`.
abbrev pub Ascending : List Bytes → Type 0
Ascending [] = Unit
Ascending (name ∷ []) = Unit
Ascending (name ∷ next ∷ names) = (text_leb next name ≡ false) × Ascending (next ∷ names)

-- Valid names of one shell, each above the one before it.
abbrev pub IsNameList : Shell → List Bytes → Type 0
IsNameList sh names = All (λ name. IsValidName name sh) names × Ascending names

ordered_names-valid :
    (sh : Shell) (last : Option Bytes) (names : List Bytes)
    → ordered_names sh last names ≡ true
    → All (λ name. IsValidName name sh) names
unfolding ordered_names
ordered_names-valid sh last [] h = tt
ordered_names-valid sh last (name ∷ names) h = (
  (check_name_iff name sh).0 (ground (arith, h)),
  ordered_names-valid sh (some name) names (ground (arith, h)),
)

ordered_names-Ascending :
    (sh : Shell) (last : Option Bytes) (names : List Bytes)
    → ordered_names sh last names ≡ true
    → Ascending names
unfolding ordered_names follows
ordered_names-Ascending sh last [] h = tt
ordered_names-Ascending sh last (name ∷ []) h = tt
ordered_names-Ascending sh last (name ∷ next ∷ names) h =
    (ground (arith, h), ordered_names-Ascending sh (some name) (next ∷ names) (ground (arith, h)))

-- Whatever an earlier file holds, the names that are carried into the new file are valid alias names of the
-- shell, each above the one before it in the order of bytes: for the strict reader of a whole file and for the
-- reader of the marker.
pub parse_legacy-IsNameList :
    (contents : Bytes) (sh : Shell) (names : List Bytes)
    → (parse_legacy_posix_aliases contents sh ≡ some names)
      ⊎ (parse_current_legacy_migration contents sh ≡ some names)
    → IsNameList sh names
unfolding parse_legacy_posix_aliases
parse_legacy-IsNameList contents sh names (inl h) =
    let o = legacy_lines-ordered sh (split newline contents) {names = names} (ground arith) in
    (ordered_names-valid sh none names o, ordered_names-Ascending sh none names o)
parse_legacy-IsNameList contents sh names (inr h) =
    let o = current-ordered sh contents {names = names} h in
    (ordered_names-valid sh none names o, ordered_names-Ascending sh none names o)
