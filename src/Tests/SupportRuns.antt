-- ===== src/Tests/SupportRuns.antt =====
-- The theorems on the startup file, tokens, the aliases file and earlier files, at concrete inputs.
use aliasdeck.Prelude.{
  ℕ, suc, ◌≤◌, ◌≡◌, refl, ◌↔◌, inl, true, [], ◌∷◌, ◌++◌, none, some, length, arith,
}
use aliasdeck.Prelude.{Result, ok}
use aliasdeck.Text.{
  same, contains_text, text_leb, cut_prefix, has_prefix, trim_prefix, has_suffix, trim_suffix, cut,
  index, contains, replace_first, replace_from, replace_all, split, join, is_blank, trim_left_blank,
  index_where, to_lower_byte,
}
use aliasdeck.Apply.Content.{
  begin_marker, end_marker, detect_eol, ends_open, padding, build_block, add_content, byte_at,
  is_byte_at, whole_line, index_of_line_from, index_of_line, strip_trailing_eol, removal_start,
  removal_end, remove_marker_scan, remove_content,
}
use aliasdeck.Auth.Token.{
  token_prefix, kind_byte, byte_kind, wire_text, mint, parse_fields, parse_kind, parse,
  verify_secret, verify, consume_enrollment,
}
use aliasdeck.Domain.Shell.{
  platform_valid, parse_platform, shell_valid, is_posix, parse_shell, default_shell_for,
}
use aliasdeck.Config.Aliases.{
  max_aliases_file_size, parse_each, parse_platforms, parse_shells, enabled_or_default, to_domain,
  to_domain_all, from_domain, alias_warnings, profile_warnings, read_dto, parse_aliases,
  document_dto, marshal_aliases,
}
use aliasdeck.Renderers.Quote.{quote_posix, quote_powershell, clean_rune, sanitize_comment}
use aliasdeck.Renderers.Legacy.{
  has_control, inject_legacy_migration, inside_quotes, decode_quoted_posix,
  valid_legacy_device_line, is_revision_digit, valid_legacy_revision_line, atoi_digits, atoi,
  parse_legacy_alias_count, valid_legacy_description, parse_legacy_alias_line,
}
use aliasdeck.Renderers.LegacyFile.{
  skip_description, follows, take_alias, take_block, at_end, legacy_names, legacy_lines,
  parse_legacy_posix_aliases, migrate_legacy_posix_output, fields_from, fields, ordered_names,
  marker_names, parse_current_legacy_migration, carry_forward_legacy_posix_migration,
}
use aliasdeck.Utf8.{
  continues, second, two_bytes, three_bytes, four_bytes, decode_rune, decode_from, runes,
  count_runes, encode_rune, is_space, is_control, space_rune, trim_runes, trim_space,
}
use aliasdeck.Validate.Name.{
  is_letter, is_inner, valid_runes_from, valid_name_runes, posix_reserved, powershell_reserved,
  to_lower_ascii, lower_rune, to_lower, is_reserved_word, check_name,
}
use aliasdeck.Validate.Command.{
  is_bad_control, first_where, first_control_rune, control_error, check_command, check_description,
}
use mathlib.Core.List.{flat_map}
use aliasdeck.Renderers.Legacy.{legacy_header_line, legacy_changes_line, legacy_edit_line}
use aliasdeck.Text.{Bytes, codes}
use aliasdeck.Apply.ContentLaws.{remove_content-add_content, add_content-again}
use aliasdeck.Auth.Token.{ParsedToken, Token, EnrollmentTokens, token_kind_enrollment}
use aliasdeck.Auth.TokenLaws.{IsWire, parse_iff, consume_enrollment-ok}
use aliasdeck.Config.Aliases.{AliasesDocument, AliasesFileDto}
use aliasdeck.Config.AliasesLaws.{IsFileAlias, parse_aliases-marshal_aliases}
use aliasdeck.Renderers.LegacyLaws.{IsNameList, parse_legacy-IsNameList}
use aliasdeck.Tests.Samples.{gs, ll}

abbrev startup_file : Bytes
startup_file = codes "export A=1\n"

abbrev line : Bytes
line = codes ". \"$HOME/a.zsh\""

abbrev block : Bytes
block = build_block startup_file line (detect_eol startup_file)

block_added : add_content startup_file line ≡ some (block, startup_file ++ block)
unfolding same contains_text text_leb cut_prefix has_prefix trim_prefix has_suffix trim_suffix cut
    index contains replace_first replace_from replace_all split join is_blank trim_left_blank
    index_where to_lower_byte begin_marker end_marker detect_eol ends_open padding build_block
    add_content byte_at is_byte_at whole_line index_of_line_from index_of_line strip_trailing_eol
    removal_start removal_end remove_marker_scan remove_content token_prefix kind_byte byte_kind
    wire_text mint parse_fields parse_kind parse verify_secret verify consume_enrollment
    platform_valid parse_platform shell_valid is_posix parse_shell default_shell_for
    max_aliases_file_size parse_each parse_platforms parse_shells enabled_or_default to_domain
    to_domain_all from_domain alias_warnings profile_warnings read_dto parse_aliases document_dto
    marshal_aliases quote_posix quote_powershell clean_rune sanitize_comment has_control
    inject_legacy_migration inside_quotes decode_quoted_posix valid_legacy_device_line
    is_revision_digit valid_legacy_revision_line atoi_digits atoi parse_legacy_alias_count
    valid_legacy_description parse_legacy_alias_line skip_description follows take_alias take_block
    at_end legacy_names legacy_lines parse_legacy_posix_aliases migrate_legacy_posix_output
    fields_from fields ordered_names marker_names parse_current_legacy_migration
    carry_forward_legacy_posix_migration continues second two_bytes three_bytes four_bytes
    decode_rune decode_from runes count_runes encode_rune is_space is_control space_rune trim_runes
    trim_space is_letter is_inner valid_runes_from valid_name_runes posix_reserved
    powershell_reserved to_lower_ascii lower_rune to_lower is_reserved_word check_name
    is_bad_control first_where first_control_rune control_error check_command check_description
    flat_map
block_added = refl

remove_content-add_content_example :
    remove_content (startup_file ++ block) block ≡ (some startup_file, true)
remove_content-add_content_example =
    remove_content-add_content startup_file line block (startup_file ++ block) block_added

add_content-again_example :
    ((other : Bytes) → add_content (startup_file ++ block) other ≡ none)
    × (contains (startup_file ++ block) begin_marker ≡ true)
    × (contains (startup_file ++ block) line ≡ true)
add_content-again_example =
    add_content-again startup_file line block (startup_file ++ block) block_added

abbrev parsed : ParsedToken
parsed = record { kind = token_kind_enrollment; lookup = codes "ab"; secret = codes "cd" }

parse_iff_example : (parse (codes "ade_ab.cd") ≡ some parsed) ↔ IsWire (codes "ade_ab.cd") parsed
parse_iff_example = parse_iff (codes "ade_ab.cd") parsed

abbrev stored : Token
stored = record {
  id = codes "1";
  lookup = codes "ab";
  kind = token_kind_enrollment;
  subject_id = [];
  secret_hash = codes "cd";
  profile_ids = [];
  created_at = 1;
  expires_at = 0;
  used_at = 0;
  revoked_at = 0;
}

-- A store with one record; its state counts the devices.
abbrev one_token : EnrollmentTokens ℕ Bytes
one_token = record { by_lookup = λ l n. ok stored; consume = λ l d n. (ok d, suc n) }

device_made :
    consume_enrollment (λ s. s) one_token (codes "ade_ab.cd") (codes "laptop") 0
    ≡ (ok (codes "laptop"), suc 0)
unfolding same contains_text text_leb cut_prefix has_prefix trim_prefix has_suffix trim_suffix cut
    index contains replace_first replace_from replace_all split join is_blank trim_left_blank
    index_where to_lower_byte begin_marker end_marker detect_eol ends_open padding build_block
    add_content byte_at is_byte_at whole_line index_of_line_from index_of_line strip_trailing_eol
    removal_start removal_end remove_marker_scan remove_content token_prefix kind_byte byte_kind
    wire_text mint parse_fields parse_kind parse verify_secret verify consume_enrollment
    platform_valid parse_platform shell_valid is_posix parse_shell default_shell_for
    max_aliases_file_size parse_each parse_platforms parse_shells enabled_or_default to_domain
    to_domain_all from_domain alias_warnings profile_warnings read_dto parse_aliases document_dto
    marshal_aliases quote_posix quote_powershell clean_rune sanitize_comment has_control
    inject_legacy_migration inside_quotes decode_quoted_posix valid_legacy_device_line
    is_revision_digit valid_legacy_revision_line atoi_digits atoi parse_legacy_alias_count
    valid_legacy_description parse_legacy_alias_line skip_description follows take_alias take_block
    at_end legacy_names legacy_lines parse_legacy_posix_aliases migrate_legacy_posix_output
    fields_from fields ordered_names marker_names parse_current_legacy_migration
    carry_forward_legacy_posix_migration continues second two_bytes three_bytes four_bytes
    decode_rune decode_from runes count_runes encode_rune is_space is_control space_rune trim_runes
    trim_space is_letter is_inner valid_runes_from valid_name_runes posix_reserved
    powershell_reserved to_lower_ascii lower_rune to_lower is_reserved_word check_name
    is_bad_control first_where first_control_rune control_error check_command check_description
    flat_map
device_made = refl

consume_enrollment-ok_example :
    (t : ParsedToken) × (tok : Token) × IsWire (codes "ade_ab.cd") t
    × (t.kind ≡ token_kind_enrollment)
    × (one_token.by_lookup t.lookup 0 ≡ ok tok)
    × (t.secret ≡ tok.secret_hash)
    × (one_token.consume t.lookup (codes "laptop") 0 ≡ (ok (codes "laptop"), suc 0))
consume_enrollment-ok_example =
    consume_enrollment-ok (λ s. s) one_token (codes "ade_ab.cd") (codes "laptop") (codes "laptop") 0
      (suc 0) device_made

zsh_valid : shell_valid (codes "zsh") ≡ true
unfolding same contains_text text_leb cut_prefix has_prefix trim_prefix has_suffix trim_suffix cut
    index contains replace_first replace_from replace_all split join is_blank trim_left_blank
    index_where to_lower_byte begin_marker end_marker detect_eol ends_open padding build_block
    add_content byte_at is_byte_at whole_line index_of_line_from index_of_line strip_trailing_eol
    removal_start removal_end remove_marker_scan remove_content token_prefix kind_byte byte_kind
    wire_text mint parse_fields parse_kind parse verify_secret verify consume_enrollment
    platform_valid parse_platform shell_valid is_posix parse_shell default_shell_for
    max_aliases_file_size parse_each parse_platforms parse_shells enabled_or_default to_domain
    to_domain_all from_domain alias_warnings profile_warnings read_dto parse_aliases document_dto
    marshal_aliases quote_posix quote_powershell clean_rune sanitize_comment has_control
    inject_legacy_migration inside_quotes decode_quoted_posix valid_legacy_device_line
    is_revision_digit valid_legacy_revision_line atoi_digits atoi parse_legacy_alias_count
    valid_legacy_description parse_legacy_alias_line skip_description follows take_alias take_block
    at_end legacy_names legacy_lines parse_legacy_posix_aliases migrate_legacy_posix_output
    fields_from fields ordered_names marker_names parse_current_legacy_migration
    carry_forward_legacy_posix_migration continues second two_bytes three_bytes four_bytes
    decode_rune decode_from runes count_runes encode_rune is_space is_control space_rune trim_runes
    trim_space is_letter is_inner valid_runes_from valid_name_runes posix_reserved
    powershell_reserved to_lower_ascii lower_rune to_lower is_reserved_word check_name
    is_bad_control first_where first_control_rune control_error check_command check_description
    flat_map
zsh_valid = refl

gs_file : IsFileAlias gs
gs_file = record {
  id_is_name = refl;
  platforms_ok = tt;
  shells_ok = tt;
  no_devices = refl;
  no_creation = refl;
  no_update = refl;
}

ll_file : IsFileAlias ll
ll_file = record {
  id_is_name = refl;
  platforms_ok = tt;
  shells_ok = (zsh_valid, tt);
  no_devices = refl;
  no_creation = refl;
  no_update = refl;
}

abbrev document : AliasesDocument
document = record { profiles = []; aliases = gs ∷ ll ∷ [] }

-- A stand-in for the YAML package that knows one text.
abbrev encode_one : AliasesFileDto → Result Bytes Bytes
encode_one dto = ok (codes "yaml")

abbrev decode_one : Bytes → Result Bytes AliasesFileDto
decode_one bytes = ok (document_dto document)

document_written : marshal_aliases encode_one document ≡ ok (codes "yaml")
unfolding marshal_aliases
document_written = refl

document_fits : length (codes "yaml") ≤ max_aliases_file_size
unfolding max_aliases_file_size
document_fits = omega arith

parse_aliases-marshal_aliases_example : parse_aliases decode_one (codes "yaml") ≡ ok document
parse_aliases-marshal_aliases_example =
    parse_aliases-marshal_aliases encode_one decode_one document (codes "yaml") (λ e. refl)
      (gs_file, (ll_file, tt)) document_written document_fits

abbrev old_file : Bytes
old_file =
    legacy_header_line
    ++ (codes "\n#\n# Device:   macos / zsh\n# Revision: 0123456789ab\n# Aliases:  2\n#\n"
        ++ (legacy_changes_line
            ++ (codes "\n"
                ++ (legacy_edit_line
                    ++ codes "\n\n# short\nalias gs='git status'\n\nalias ll='ls'\n"))))

old_names : parse_legacy_posix_aliases old_file (codes "zsh") ≡ some (codes "gs" ∷ codes "ll" ∷ [])
unfolding same contains_text text_leb cut_prefix has_prefix trim_prefix has_suffix trim_suffix cut
    index contains replace_first replace_from replace_all split join is_blank trim_left_blank
    index_where to_lower_byte begin_marker end_marker detect_eol ends_open padding build_block
    add_content byte_at is_byte_at whole_line index_of_line_from index_of_line strip_trailing_eol
    removal_start removal_end remove_marker_scan remove_content token_prefix kind_byte byte_kind
    wire_text mint parse_fields parse_kind parse verify_secret verify consume_enrollment
    platform_valid parse_platform shell_valid is_posix parse_shell default_shell_for
    max_aliases_file_size parse_each parse_platforms parse_shells enabled_or_default to_domain
    to_domain_all from_domain alias_warnings profile_warnings read_dto parse_aliases document_dto
    marshal_aliases quote_posix quote_powershell clean_rune sanitize_comment has_control
    inject_legacy_migration inside_quotes decode_quoted_posix valid_legacy_device_line
    is_revision_digit valid_legacy_revision_line atoi_digits atoi parse_legacy_alias_count
    valid_legacy_description parse_legacy_alias_line skip_description follows take_alias take_block
    at_end legacy_names legacy_lines parse_legacy_posix_aliases migrate_legacy_posix_output
    fields_from fields ordered_names marker_names parse_current_legacy_migration
    carry_forward_legacy_posix_migration continues second two_bytes three_bytes four_bytes
    decode_rune decode_from runes count_runes encode_rune is_space is_control space_rune trim_runes
    trim_space is_letter is_inner valid_runes_from valid_name_runes posix_reserved
    powershell_reserved to_lower_ascii lower_rune to_lower is_reserved_word check_name
    is_bad_control first_where first_control_rune control_error check_command check_description
    flat_map
old_names = refl

parse_legacy-IsNameList_example : IsNameList (codes "zsh") (codes "gs" ∷ codes "ll" ∷ [])
parse_legacy-IsNameList_example =
    parse_legacy-IsNameList old_file (codes "zsh") (codes "gs" ∷ codes "ll" ∷ []) (inl old_names)
