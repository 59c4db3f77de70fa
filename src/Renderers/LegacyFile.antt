-- ===== src/Renderers/LegacyFile.antt =====
-- internal/renderers/legacy_posix.go: a whole file of an earlier version, and the marker in a current one.
use aliasdeck.Prelude.{
  ℕ, zero, suc, Bool, true, false, ◌&&◌, ◌||◌, not, List, [], ◌∷◌, ◌++◌, Option, none, some,
  is_empty, if◌then◌else◌, is_some, ◌>>=◌,
}
use aliasdeck.Text.{
  Bytes, codes, newline, contains, cut, has_prefix, has_suffix, trim_prefix, split, join, same,
  text_leb,
}
use aliasdeck.Utf8.{Rune, decode, space_rune}
use aliasdeck.Domain.Shell.{Shell, is_posix}
use aliasdeck.Validate.Name.{check_name}
use aliasdeck.Renderers.Legacy.{
  legacy_header_line, legacy_changes_line, legacy_edit_line, managed_aliases_guard_line,
  legacy_migration_prefix, legacy_migration_suffix, inject_legacy_migration, decode_quoted_posix,
  valid_legacy_device_line, valid_legacy_revision_line, parse_legacy_alias_count,
  valid_legacy_description, parse_legacy_alias_line,
}

-- The comment above an alias, passed over if it is there and not the last line.
unfoldable pub skip_description : List Bytes → Option (List Bytes)
skip_description [] = some []
skip_description (l ∷ []) = some (l ∷ [])
skip_description (l ∷ m ∷ rest) =
    if has_prefix l (codes "# ")
    then (if valid_legacy_description (trim_prefix l (codes "# ")) then some (m ∷ rest) else none)
    else some (l ∷ m ∷ rest)

-- Whether a name may stand behind the name before it.
unfoldable pub follows : Option Bytes → Bytes → Bool
follows none name = true
follows (some last) name = not (text_leb name last)

-- The alias line at the front, if it is not the last line, with the lines behind it.
unfoldable pub take_alias : Shell → Option Bytes → List Bytes → Option (Bytes × List Bytes)
unfolding follows
take_alias shell last [] = none
take_alias shell last (l ∷ []) = none
take_alias shell last (l ∷ m ∷ rest) = elim (parse_legacy_alias_line l shell) [
  | none ↦ none
  | some name ↦ if follows last name then some (name, m ∷ rest) else none
]

-- One round of the loop: an empty line, perhaps a comment, and an alias.
unfoldable pub take_block : Shell → Option Bytes → List Bytes → Option (Bytes × List Bytes)
unfolding skip_description take_alias
take_block shell last [] = none
take_block shell last (l ∷ []) = none
take_block shell last (l ∷ m ∷ rest) =
    if not (is_empty l)
    then none
    else (do lines ← skip_description (m ∷ rest); take_alias shell last lines)

-- Exactly the empty text behind the last newline is left.
unfoldable pub at_end : List Bytes → Bool
at_end (l ∷ []) = is_empty l
at_end _ = false

-- The loop of `parseLegacyPOSIXAliases`: so many names, the lines from index 8 on.
unfoldable pub legacy_names : Shell → ℕ → Option Bytes → List Bytes → Option (List Bytes)
unfolding take_block at_end
legacy_names shell zero last lines = if at_end lines then some [] else none
legacy_names shell (suc n) last lines = do
  (name, rest) ← take_block shell last lines
  names ← legacy_names shell n (some name) rest
  some (name ∷ names)

-- The first eight lines, with the alias count.
unfoldable pub legacy_lines : Shell → List Bytes → Option (List Bytes)
unfolding legacy_names
legacy_lines shell (l0 ∷ l1 ∷ l2 ∷ l3 ∷ l4 ∷ l5 ∷ l6 ∷ l7 ∷ l8 ∷ rest) =
    if same l0 legacy_header_line
      && same l1 (codes "#")
      && valid_legacy_device_line l2 shell
      && valid_legacy_revision_line l3
      && same l5 (codes "#")
      && same l6 legacy_changes_line
      && same l7 legacy_edit_line
    then (do count ← parse_legacy_alias_count l4; legacy_names shell count none (l8 ∷ rest))
    else none
legacy_lines shell _ = none

-- `parseLegacyPOSIXAliases`; that the last line is empty follows from the newline at the end.
unfoldable pub parse_legacy_posix_aliases : Bytes → Shell → Option (List Bytes)
unfolding legacy_lines
parse_legacy_posix_aliases contents shell =
    if is_empty contents || contains contents (codes "\r") || not (has_suffix contents (codes "\n"))
    then none
    else legacy_lines shell (split newline contents)

-- `MigrateLegacyPOSIXOutput`
unfoldable pub migrate_legacy_posix_output : Bytes → Bytes → Shell → Bytes
migrate_legacy_posix_output current previous shell =
    if not (is_posix shell) then current else elim (parse_legacy_posix_aliases previous shell) [
      | none ↦ current
      | some names ↦ if is_empty names then current else inject_legacy_migration current names
    ]

-- `strings.Fields`: the first argument is the field that is being read.
unfoldable pub fields_from : Bytes → List Rune → List Bytes
fields_from field [] = if is_empty field then [] else field ∷ []
fields_from field (r ∷ rs) =
    let ended = fields_from [] rs in
    let longer = fields_from (field ++ r.bytes) rs in
    if space_rune r then (if is_empty field then ended else field ∷ ended) else longer

unfoldable pub fields : Bytes → List Bytes
unfolding fields_from
fields s = fields_from [] (decode s)

-- Every name is valid and follows the name before it.
unfoldable pub ordered_names : Shell → Option Bytes → List Bytes → Bool
ordered_names shell last [] = true
ordered_names shell last (name ∷ names) =
    not (is_some (check_name name shell))
    && follows last name
    && ordered_names shell (some name) names

-- The names of a quoted list, if it is not empty.
unfoldable pub marker_names : Shell → Bytes → Option (List Bytes)
unfolding fields ordered_names
marker_names shell raw = elim (decode_quoted_posix raw) [
  | none ↦ none
  | some decoded ↦
      let names = fields decoded in
      if is_empty decoded
        || not (same (join (codes " ") names) decoded)
        || not (ordered_names shell none names)
      then none
      else some names
]

-- `parseCurrentLegacyMigration`: the prefix occurs exactly once.
unfoldable pub parse_current_legacy_migration : Bytes → Shell → Option (List Bytes)
unfolding marker_names
parse_current_legacy_migration contents shell = elim (cut legacy_migration_prefix contents) [
  | none ↦ none
  | some (before, rest) ↦
      if contains rest legacy_migration_prefix
      then none
      else elim (cut (legacy_migration_suffix ++ managed_aliases_guard_line) rest) [
        | none ↦ none
        | some (raw, behind) ↦ marker_names shell raw
      ]
]

-- `CarryForwardLegacyPOSIXMigration`
unfoldable pub carry_forward_legacy_posix_migration : Bytes → Bytes → Shell → Bytes
carry_forward_legacy_posix_migration current previous shell =
    if not (is_posix shell) then current else elim (parse_current_legacy_migration previous shell) [
      | none ↦ current
      | some names ↦ inject_legacy_migration current names
    ]
