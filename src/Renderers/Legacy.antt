-- ===== src/Renderers/Legacy.antt =====
-- internal/renderers/legacy_posix.go: the names of a file of an earlier version, for the new file.
use aliasdeck.Prelude.{
  ℕ, ◌+◌, ◌-◌, ◌*◌, Bool, ◌&&◌, ◌||◌, not, List, [], ◌∷◌, ◌++◌, Option, none, some, length, any,
  all, is_empty, ltb, leb, ◌==◌, if◌then◌else◌, is_some,
}
use aliasdeck.Text.{
  Bytes, codes, quote, same, contains, cut, has_prefix, has_suffix, trim_prefix, replace_first,
  replace_all, join,
}
use aliasdeck.Utf8.{runes, is_control, trim_space}
use mathlib.Core.List.{reverse}
use aliasdeck.Domain.Shell.{Shell}
use aliasdeck.Validate.Name.{check_name}
use aliasdeck.Validate.Command.{check_command}
use aliasdeck.Validate.Issues.{max_aliases}
use aliasdeck.Renderers.Quote.{quote_posix, escaped_quote}

abbrev pub legacy_header_line : Bytes
legacy_header_line = codes "# Generated by AliasDeck. Do not edit."

abbrev pub legacy_changes_line : Bytes
legacy_changes_line = codes "# Changes made to this file are lost on the next `aliasdeck sync`."

abbrev pub legacy_edit_line : Bytes
legacy_edit_line = codes "# Edit your aliases.yaml, or use the AliasDeck web UI."

abbrev pub managed_aliases_guard_line : Bytes
managed_aliases_guard_line = codes "if [ -n \"${ALIASDECK_MANAGED_ALIAS_NAMES-}\" ]; then\n"

abbrev pub legacy_migration_prefix : Bytes
legacy_migration_prefix =
    codes "if [ -z \"${ALIASDECK_MANAGED_ALIAS_NAMES+x}\" ]; then\n  ALIASDECK_MANAGED_ALIAS_NAMES="

abbrev pub legacy_migration_suffix : Bytes
legacy_migration_suffix = codes "\nfi\n"

-- `hasControl`
unfoldable pub has_control : Bytes → Bool
has_control value = any is_control (runes value)

-- `injectLegacyMigration`
unfoldable pub inject_legacy_migration : Bytes → List Bytes → Bytes
inject_legacy_migration current names =
    let needle = codes "\n" ++ managed_aliases_guard_line in
    let block =
      codes "\n"
      ++ (legacy_migration_prefix
          ++ (quote_posix (join (codes " ") names) ++ legacy_migration_suffix)) in
    if not (contains current needle)
    then current
    else replace_first current needle (block ++ managed_aliases_guard_line)

-- The value without its first and last byte, if both are quotes.
unfoldable pub inside_quotes : Bytes → Option Bytes
inside_quotes [] = none
inside_quotes (c ∷ s) =
    if not (c == quote)
    then none
    else elim (reverse s) [ [] ↦ none | d ∷ r ↦ if d == quote then some (reverse r) else none ]

-- `decodeQuotedPOSIX`: `none` where it reports false.
unfoldable pub decode_quoted_posix : Bytes → Option Bytes
decode_quoted_posix value = elim (inside_quotes value) [
  | none ↦ none
  | some inner ↦
      let decoded = replace_all inner escaped_quote (quote ∷ []) in
      if same (quote_posix decoded) value then some decoded else none
]

-- `validLegacyDeviceLine`
unfoldable pub valid_legacy_device_line : Bytes → Shell → Bool
valid_legacy_device_line line shell =
    let front = codes "# Device:   " in
    let want = codes " / " ++ shell in
    has_prefix line front
    && not (has_control (trim_prefix line front))
    && (has_suffix line want || has_suffix line (want ++ codes ")"))

unfoldable pub is_revision_digit : ℕ → Bool
is_revision_digit r = (leb b'0' r && leb r b'9') || (leb b'a' r && leb r b'f')

-- `validLegacyRevisionLine`
unfoldable pub valid_legacy_revision_line : Bytes → Bool
valid_legacy_revision_line line =
    let front = codes "# Revision: " in
    let revision = trim_prefix line front in
    length revision == 12 && same (front ++ revision) line && all is_revision_digit (runes revision)

-- `strconv.Atoi` on digits, up to a bound: `none` for another byte, and beyond the bound.
unfoldable pub atoi_digits : ℕ → ℕ → Bytes → Option ℕ
atoi_digits bound n [] = if leb n bound then some n else none
atoi_digits bound n (c ∷ s) =
    let rest = atoi_digits bound (n * 10 + (c - b'0')) s in
    if leb b'0' c && leb c b'9' then rest else none

-- A number from 0 to the bound that `strconv.Atoi` accepts, with its sign.
unfoldable pub atoi : ℕ → Bytes → Option ℕ
atoi bound [] = none
atoi bound (c ∷ s) =
    if c == b'+'
    then (if is_empty s then none else atoi_digits bound 0 s)
    else if c == b'-'
    then (if is_empty s then none else atoi_digits 0 0 s)
    else atoi_digits bound 0 (c ∷ s)

-- `parseLegacyAliasCount`
unfoldable pub parse_legacy_alias_count : Bytes → Option ℕ
parse_legacy_alias_count line =
    let front = codes "# Aliases:  " in
    let raw = trim_prefix line front in
    if is_empty raw
      || not (same (front ++ raw) line)
      || (ltb 1 (length raw) && has_prefix raw (codes "0"))
    then none
    else atoi max_aliases raw

-- `validLegacyDescription`
unfoldable pub valid_legacy_description : Bytes → Bool
valid_legacy_description description =
    not (is_empty description)
    && same (trim_space description) description
    && not (has_control description)

-- `parseLegacyAliasLine`
unfoldable pub parse_legacy_alias_line : Bytes → Shell → Option Bytes
parse_legacy_alias_line line shell =
    if not (has_prefix line (codes "alias "))
    then none
    else elim (cut (codes "=") (trim_prefix line (codes "alias "))) [
      | none ↦ none
      | some (name, rhs) ↦
          if is_some (check_name name shell) then none else elim (decode_quoted_posix rhs) [
            | none ↦ none
            | some command ↦ if is_some (check_command command) then none else some name
          ]
    ]
