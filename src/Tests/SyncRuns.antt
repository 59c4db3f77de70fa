-- ===== src/Tests/SyncRuns.antt =====
-- The theorems on the client's sync and on the end of a loop, at concrete inputs.
use aliasdeck.Prelude.{
  ◌+◌, ◌≡◌, refl, Bool, true, false, [], ◌++◌, Option, none, some, is_empty, if◌then◌else◌, arith,
}
use aliasdeck.Prelude.{Result, ok, err}
use mathlib.Core.List.{flat_map}
use aliasdeck.Text.{
  same, contains_text, text_leb, cut_prefix, has_prefix, trim_prefix, has_suffix, trim_suffix, cut,
  index, contains, replace_first, replace_from, replace_all, split, join, is_blank, trim_left_blank,
  index_where, to_lower_byte,
}
use aliasdeck.Utf8.{
  continues, second, two_bytes, three_bytes, four_bytes, decode_rune, decode_from, runes,
  count_runes, encode_rune, is_space, is_control, space_rune, trim_runes, trim_space,
}
use aliasdeck.Domain.Shell.{
  platform_valid, parse_platform, shell_valid, is_posix, parse_shell, default_shell_for,
}
use aliasdeck.Domain.Alias.{
  targets_platform, targets_shell, has_profile, shares_profile, targets_profiles, targets_device,
  miss, is_no_miss, applies_to,
}
use aliasdeck.Domain.Resolved.{
  insert_alias, sort_aliases, write_field, alias_fields, revision_input, compute_revision, resolve,
}
use aliasdeck.Validate.Command.{
  is_bad_control, first_where, first_control_rune, control_error, check_command, check_description,
}
use aliasdeck.Validate.Name.{
  is_letter, is_inner, valid_runes_from, valid_name_runes, posix_reserved, powershell_reserved,
  to_lower_ascii, lower_rune, to_lower, is_reserved_word, check_name,
}
use aliasdeck.Validate.Issues.{
  is_error, has_errors, errors, add_error, name_issues, command_issues, description_issues,
  platform_issues, shell_issues, alias_issues, duplicate_key, config_error, device_issues,
  count_issues, loop_issues, config_issues,
}
use aliasdeck.Renderers.Quote.{quote_posix, quote_powershell, clean_rune, sanitize_comment}
use aliasdeck.Renderers.Header.{
  digits, decimal, header_line, device_text, revision_text, count_text, banner_text, changes_text,
  edit_text, header,
}
use aliasdeck.Renderers.Posix.{
  unalias_block, managed_names, unset_line, description_line, alias_line, alias_block, zsh_hook,
  posix_text,
}
use aliasdeck.Renderers.PowerShell.{function_block, powershell_text}
use aliasdeck.Renderers.Legacy.{
  has_control, inject_legacy_migration, inside_quotes, decode_quoted_posix,
  valid_legacy_device_line, is_revision_digit, valid_legacy_revision_line, atoi_digits, atoi,
  parse_legacy_alias_count, valid_legacy_description, parse_legacy_alias_line,
}
use aliasdeck.Renderers.LegacyFile.{
  skip_description, follows, take_alias, take_block, at_end, legacy_names, legacy_lines,
  parse_legacy_posix_aliases, migrate_legacy_posix_output, fields_from, fields, ordered_names,
  marker_names, parse_current_legacy_migration, carry_forward_legacy_posix_migration,
}
use aliasdeck.Renderers.Render.{
  renderer_shell, lookup_renderer, renderer_for, first_issue, guard, renderer_text, render_with,
  render,
}
use aliasdeck.Apply.Atomic.{
  and_then, refuse_unsafe_destination, or_close, write_sync_close, and_remove, write_file_atomic,
}
use aliasdeck.Apply.Native.{
  shell_file_ext, native_output_path, of_disk, native_apply, native_backend, chezmoi_backend,
}
use aliasdeck.State.{decode_state, load, save_bytes, save}
use aliasdeck.App.Sync.{
  short_sha, source_ref, is_stale, fetched_time, disk_hash_matches, migrated, final_output, prepare,
  new_state, report, is_unchanged, write_output, sync_config, sync_with_context,
}
use aliasdeck.Importers.Lexer.{
  kind, inner_kind, is_escapable, lex_double_from, lex_double_quoted, is_expandable, lex_from,
  expansion_note, lex_value,
}
use aliasdeck.Importers.Statement.{
  after_keyword, after_alias_keyword, first_word, strip_options, blank_before, assignment_at,
  parse_assignment, parse_definitions, parse_statement,
}
use aliasdeck.Text.{Bytes, codes}
use aliasdeck.Domain.Resolved.{ResolvedConfig}
use aliasdeck.Apply.Atomic.{Disk, OsError, not_exist}
use aliasdeck.State.{State, StateJson, empty_state}
use aliasdeck.App.Sync.{ConfigSource, DeviceContext, SyncReport, Prepared}
use aliasdeck.App.SyncLaws.{at, IsDone, sync_config-IsDone}
use aliasdeck.App.Prepared.{IsPrepared}
use aliasdeck.Renderers.OneLine.{IsOneLine}
use aliasdeck.App.Again.{IsKept, sync_config-again}
use aliasdeck.Importers.Statement.{Parsed}
use aliasdeck.Importers.Termination.{parse_definitions-fuel}
use aliasdeck.Tests.Samples.{laptop, same_rune}

-- A stand-in for SHA-256.
abbrev same_text : Bytes → Bytes
same_text s = s

-- A machine: its generated file, and whether a state was saved.
abbrev Machine : Type 0
Machine = Option Bytes × Bool

abbrev state_path : Bytes
state_path = codes "/state"

abbrev file_of : Option Bytes → Result OsError Bytes
file_of none = err not_exist
file_of (some bytes) = ok bytes

abbrev read : Bytes → Machine → Result OsError Bytes
read path (file, saved) =
    if same path state_path
    then (if saved then ok (codes "state") else err not_exist)
    else file_of file

-- Writing the temporary file of the state notes it as saved; the other file is the generated one.
abbrev put : Bytes → Bytes → Machine → Machine
put path bytes (file, saved) =
    if same path (codes ".state.*.tmp") then (file, true) else (some bytes, saved)

abbrev disk : Disk Machine
disk = record {
  dir = λ path. path;
  base = λ path. path;
  eval_symlinks = λ path w. ok path;
  stat_mode = λ path w. ok 0o644;
  read_file = read;
  lstat = λ path w. err not_exist;
  mkdir_all = λ path w. (ok tt, w);
  create_temp = λ dir pattern w. (ok pattern, w);
  chmod = λ path mode w. (ok tt, w);
  write = λ path bytes w. (ok tt, put path bytes w);
  sync = λ path w. (ok tt, w);
  close = λ path w. (ok tt, w);
  rename = λ old new w. (ok tt, w);
  remove = λ path w. (ok tt, w);
}

abbrev config : ResolvedConfig
config = record { revision = codes "r1"; device = laptop; aliases = []; generated_at = 0 }

abbrev source : ConfigSource Machine
source = record {
  source_type = codes "file";
  ref = codes "/aliases.yaml";
  resolve_for = λ dev w. (ok config, w);
  last_resolve = λ w. none;
}

abbrev context : DeviceContext Machine
context = record {
  state_path = state_path;
  device = laptop;
  source = source;
  backend = native_backend disk (λ a b. a ++ (codes "/" ++ b)) (codes "/base");
}

abbrev text : Bytes
text = posix_text (codes "zsh") config

abbrev first : Prepared
first = record { path = codes "/base/aliases.zsh"; previous = empty_state; output = text }

-- What the first sync saves, by the fields of the text that it wrote.
abbrev saved_state : State
saved_state = record {
  version = 1;
  revision = codes "r1";
  output_path = codes "/base/aliases.zsh";
  output_hash = text;
  alias_count = 0;
  platform = codes "macos";
  shell = codes "zsh";
  source_type = codes "file";
  source_ref = codes "/aliases.yaml";
  source_stale = false;
  source_fetched_at = 0;
  last_sync_at = 6;
  client_version = codes "0.7.0";
  bootstrap = none;
}

abbrev json : StateJson
json = record { marshal = λ s. some (codes "state"); unmarshal = λ bytes. some saved_state }

abbrev fresh : Machine
fresh = (none, false)

abbrev synced : Machine
synced = (some text, true)

prepared : prepare same_text same_rune disk json context (at 5 config) fresh ≡ ok first
unfolding same contains_text text_leb cut_prefix has_prefix trim_prefix has_suffix trim_suffix cut
    index contains replace_first replace_from replace_all split join is_blank trim_left_blank
    index_where to_lower_byte continues second two_bytes three_bytes four_bytes decode_rune
    decode_from runes count_runes encode_rune is_space is_control space_rune trim_runes trim_space
    platform_valid parse_platform shell_valid is_posix parse_shell default_shell_for
    targets_platform targets_shell has_profile shares_profile targets_profiles targets_device miss
    is_no_miss applies_to insert_alias sort_aliases write_field alias_fields revision_input
    compute_revision resolve is_bad_control first_where first_control_rune control_error
    check_command check_description is_letter is_inner valid_runes_from valid_name_runes
    posix_reserved powershell_reserved to_lower_ascii lower_rune to_lower is_reserved_word
    check_name is_error has_errors errors add_error name_issues command_issues description_issues
    platform_issues shell_issues alias_issues duplicate_key config_error device_issues count_issues
    loop_issues config_issues quote_posix quote_powershell clean_rune sanitize_comment digits
    decimal header_line device_text revision_text count_text banner_text changes_text edit_text
    header unalias_block managed_names unset_line description_line alias_line alias_block zsh_hook
    posix_text function_block powershell_text has_control inject_legacy_migration inside_quotes
    decode_quoted_posix valid_legacy_device_line is_revision_digit valid_legacy_revision_line
    atoi_digits atoi parse_legacy_alias_count valid_legacy_description parse_legacy_alias_line
    skip_description follows take_alias take_block at_end legacy_names legacy_lines
    parse_legacy_posix_aliases migrate_legacy_posix_output fields_from fields ordered_names
    marker_names parse_current_legacy_migration carry_forward_legacy_posix_migration renderer_shell
    lookup_renderer renderer_for first_issue guard renderer_text render_with render and_then
    refuse_unsafe_destination or_close write_sync_close and_remove write_file_atomic shell_file_ext
    native_output_path of_disk native_apply native_backend chezmoi_backend decode_state load
    save_bytes save short_sha source_ref is_stale fetched_time disk_hash_matches migrated
    final_output prepare new_state report is_unchanged write_output sync_config sync_with_context
    kind inner_kind is_escapable lex_double_from lex_double_quoted is_expandable lex_from
    expansion_note lex_value after_keyword after_alias_keyword first_word strip_options blank_before
    assignment_at parse_assignment parse_definitions parse_statement flat_map
prepared = refl

abbrev first_report : SyncReport
first_report = record {
  device = laptop;
  backend = codes "native";
  output_path = codes "/base/aliases.zsh";
  revision = codes "r1";
  alias_count = 0;
  skipped = false;
  source_stale = false;
  source_fetched_at = 0;
}

first_sync :
    sync_config same_text same_rune disk json context 5 6 config fresh ≡ (ok first_report, synced)
unfolding same contains_text text_leb cut_prefix has_prefix trim_prefix has_suffix trim_suffix cut
    index contains replace_first replace_from replace_all split join is_blank trim_left_blank
    index_where to_lower_byte continues second two_bytes three_bytes four_bytes decode_rune
    decode_from runes count_runes encode_rune is_space is_control space_rune trim_runes trim_space
    platform_valid parse_platform shell_valid is_posix parse_shell default_shell_for
    targets_platform targets_shell has_profile shares_profile targets_profiles targets_device miss
    is_no_miss applies_to insert_alias sort_aliases write_field alias_fields revision_input
    compute_revision resolve is_bad_control first_where first_control_rune control_error
    check_command check_description is_letter is_inner valid_runes_from valid_name_runes
    posix_reserved powershell_reserved to_lower_ascii lower_rune to_lower is_reserved_word
    check_name is_error has_errors errors add_error name_issues command_issues description_issues
    platform_issues shell_issues alias_issues duplicate_key config_error device_issues count_issues
    loop_issues config_issues quote_posix quote_powershell clean_rune sanitize_comment digits
    decimal header_line device_text revision_text count_text banner_text changes_text edit_text
    header unalias_block managed_names unset_line description_line alias_line alias_block zsh_hook
    posix_text function_block powershell_text has_control inject_legacy_migration inside_quotes
    decode_quoted_posix valid_legacy_device_line is_revision_digit valid_legacy_revision_line
    atoi_digits atoi parse_legacy_alias_count valid_legacy_description parse_legacy_alias_line
    skip_description follows take_alias take_block at_end legacy_names legacy_lines
    parse_legacy_posix_aliases migrate_legacy_posix_output fields_from fields ordered_names
    marker_names parse_current_legacy_migration carry_forward_legacy_posix_migration renderer_shell
    lookup_renderer renderer_for first_issue guard renderer_text render_with render and_then
    refuse_unsafe_destination or_close write_sync_close and_remove write_file_atomic shell_file_ext
    native_output_path of_disk native_apply native_backend chezmoi_backend decode_state load
    save_bytes save short_sha source_ref is_stale fetched_time disk_hash_matches migrated
    final_output prepare new_state report is_unchanged write_output sync_config sync_with_context
    kind inner_kind is_escapable lex_double_from lex_double_quoted is_expandable lex_from
    expansion_note lex_value after_keyword after_alias_keyword first_word strip_options blank_before
    assignment_at parse_assignment parse_definitions parse_statement flat_map
first_sync = refl

sync_config-IsDone_example :
    (p : Prepared) × IsPrepared same_text same_rune disk json context (at 5 config) fresh p
    × IsDone same_text same_rune disk json context 5 6 config p fresh first_report synced
sync_config-IsDone_example =
    sync_config-IsDone same_text same_rune disk json context 5 6 config fresh first_report synced
      first_sync

some_hash : is_empty (same_text first.output) ≡ false
unfolding same contains_text text_leb cut_prefix has_prefix trim_prefix has_suffix trim_suffix cut
    index contains replace_first replace_from replace_all split join is_blank trim_left_blank
    index_where to_lower_byte continues second two_bytes three_bytes four_bytes decode_rune
    decode_from runes count_runes encode_rune is_space is_control space_rune trim_runes trim_space
    platform_valid parse_platform shell_valid is_posix parse_shell default_shell_for
    targets_platform targets_shell has_profile shares_profile targets_profiles targets_device miss
    is_no_miss applies_to insert_alias sort_aliases write_field alias_fields revision_input
    compute_revision resolve is_bad_control first_where first_control_rune control_error
    check_command check_description is_letter is_inner valid_runes_from valid_name_runes
    posix_reserved powershell_reserved to_lower_ascii lower_rune to_lower is_reserved_word
    check_name is_error has_errors errors add_error name_issues command_issues description_issues
    platform_issues shell_issues alias_issues duplicate_key config_error device_issues count_issues
    loop_issues config_issues quote_posix quote_powershell clean_rune sanitize_comment digits
    decimal header_line device_text revision_text count_text banner_text changes_text edit_text
    header unalias_block managed_names unset_line description_line alias_line alias_block zsh_hook
    posix_text function_block powershell_text has_control inject_legacy_migration inside_quotes
    decode_quoted_posix valid_legacy_device_line is_revision_digit valid_legacy_revision_line
    atoi_digits atoi parse_legacy_alias_count valid_legacy_description parse_legacy_alias_line
    skip_description follows take_alias take_block at_end legacy_names legacy_lines
    parse_legacy_posix_aliases migrate_legacy_posix_output fields_from fields ordered_names
    marker_names parse_current_legacy_migration carry_forward_legacy_posix_migration renderer_shell
    lookup_renderer renderer_for first_issue guard renderer_text render_with render and_then
    refuse_unsafe_destination or_close write_sync_close and_remove write_file_atomic shell_file_ext
    native_output_path of_disk native_apply native_backend chezmoi_backend decode_state load
    save_bytes save short_sha source_ref is_stale fetched_time disk_hash_matches migrated
    final_output prepare new_state report is_unchanged write_output sync_config sync_with_context
    kind inner_kind is_escapable lex_double_from lex_double_quoted is_expandable lex_from
    expansion_note lex_value after_keyword after_alias_keyword first_word strip_options blank_before
    assignment_at parse_assignment parse_definitions parse_statement flat_map
some_hash = refl

kept_file : disk.read_file first.path synced ≡ ok first.output
unfolding same contains_text text_leb cut_prefix has_prefix trim_prefix has_suffix trim_suffix cut
    index contains replace_first replace_from replace_all split join is_blank trim_left_blank
    index_where to_lower_byte continues second two_bytes three_bytes four_bytes decode_rune
    decode_from runes count_runes encode_rune is_space is_control space_rune trim_runes trim_space
    platform_valid parse_platform shell_valid is_posix parse_shell default_shell_for
    targets_platform targets_shell has_profile shares_profile targets_profiles targets_device miss
    is_no_miss applies_to insert_alias sort_aliases write_field alias_fields revision_input
    compute_revision resolve is_bad_control first_where first_control_rune control_error
    check_command check_description is_letter is_inner valid_runes_from valid_name_runes
    posix_reserved powershell_reserved to_lower_ascii lower_rune to_lower is_reserved_word
    check_name is_error has_errors errors add_error name_issues command_issues description_issues
    platform_issues shell_issues alias_issues duplicate_key config_error device_issues count_issues
    loop_issues config_issues quote_posix quote_powershell clean_rune sanitize_comment digits
    decimal header_line device_text revision_text count_text banner_text changes_text edit_text
    header unalias_block managed_names unset_line description_line alias_line alias_block zsh_hook
    posix_text function_block powershell_text has_control inject_legacy_migration inside_quotes
    decode_quoted_posix valid_legacy_device_line is_revision_digit valid_legacy_revision_line
    atoi_digits atoi parse_legacy_alias_count valid_legacy_description parse_legacy_alias_line
    skip_description follows take_alias take_block at_end legacy_names legacy_lines
    parse_legacy_posix_aliases migrate_legacy_posix_output fields_from fields ordered_names
    marker_names parse_current_legacy_migration carry_forward_legacy_posix_migration renderer_shell
    lookup_renderer renderer_for first_issue guard renderer_text render_with render and_then
    refuse_unsafe_destination or_close write_sync_close and_remove write_file_atomic shell_file_ext
    native_output_path of_disk native_apply native_backend chezmoi_backend decode_state load
    save_bytes save short_sha source_ref is_stale fetched_time disk_hash_matches migrated
    final_output prepare new_state report is_unchanged write_output sync_config sync_with_context
    kind inner_kind is_escapable lex_double_from lex_double_quoted is_expandable lex_from
    expansion_note lex_value after_keyword after_alias_keyword first_word strip_options blank_before
    assignment_at parse_assignment parse_definitions parse_statement flat_map
kept_file = refl

kept_state :
    load disk json state_path synced
    ≡ ok (new_state same_text same_rune disk json context (at 5 config) first none 6)
unfolding same contains_text text_leb cut_prefix has_prefix trim_prefix has_suffix trim_suffix cut
    index contains replace_first replace_from replace_all split join is_blank trim_left_blank
    index_where to_lower_byte continues second two_bytes three_bytes four_bytes decode_rune
    decode_from runes count_runes encode_rune is_space is_control space_rune trim_runes trim_space
    platform_valid parse_platform shell_valid is_posix parse_shell default_shell_for
    targets_platform targets_shell has_profile shares_profile targets_profiles targets_device miss
    is_no_miss applies_to insert_alias sort_aliases write_field alias_fields revision_input
    compute_revision resolve is_bad_control first_where first_control_rune control_error
    check_command check_description is_letter is_inner valid_runes_from valid_name_runes
    posix_reserved powershell_reserved to_lower_ascii lower_rune to_lower is_reserved_word
    check_name is_error has_errors errors add_error name_issues command_issues description_issues
    platform_issues shell_issues alias_issues duplicate_key config_error device_issues count_issues
    loop_issues config_issues quote_posix quote_powershell clean_rune sanitize_comment digits
    decimal header_line device_text revision_text count_text banner_text changes_text edit_text
    header unalias_block managed_names unset_line description_line alias_line alias_block zsh_hook
    posix_text function_block powershell_text has_control inject_legacy_migration inside_quotes
    decode_quoted_posix valid_legacy_device_line is_revision_digit valid_legacy_revision_line
    atoi_digits atoi parse_legacy_alias_count valid_legacy_description parse_legacy_alias_line
    skip_description follows take_alias take_block at_end legacy_names legacy_lines
    parse_legacy_posix_aliases migrate_legacy_posix_output fields_from fields ordered_names
    marker_names parse_current_legacy_migration carry_forward_legacy_posix_migration renderer_shell
    lookup_renderer renderer_for first_issue guard renderer_text render_with render and_then
    refuse_unsafe_destination or_close write_sync_close and_remove write_file_atomic shell_file_ext
    native_output_path of_disk native_apply native_backend chezmoi_backend decode_state load
    save_bytes save short_sha source_ref is_stale fetched_time disk_hash_matches migrated
    final_output prepare new_state report is_unchanged write_output sync_config sync_with_context
    kind inner_kind is_escapable lex_double_from lex_double_quoted is_expandable lex_from
    expansion_note lex_value after_keyword after_alias_keyword first_word strip_options blank_before
    assignment_at parse_assignment parse_definitions parse_statement flat_map
kept_state = refl

rendered : render same_rune config ≡ ok text
unfolding same contains_text text_leb cut_prefix has_prefix trim_prefix has_suffix trim_suffix cut
    index contains replace_first replace_from replace_all split join is_blank trim_left_blank
    index_where to_lower_byte continues second two_bytes three_bytes four_bytes decode_rune
    decode_from runes count_runes encode_rune is_space is_control space_rune trim_runes trim_space
    platform_valid parse_platform shell_valid is_posix parse_shell default_shell_for
    targets_platform targets_shell has_profile shares_profile targets_profiles targets_device miss
    is_no_miss applies_to insert_alias sort_aliases write_field alias_fields revision_input
    compute_revision resolve is_bad_control first_where first_control_rune control_error
    check_command check_description is_letter is_inner valid_runes_from valid_name_runes
    posix_reserved powershell_reserved to_lower_ascii lower_rune to_lower is_reserved_word
    check_name is_error has_errors errors add_error name_issues command_issues description_issues
    platform_issues shell_issues alias_issues duplicate_key config_error device_issues count_issues
    loop_issues config_issues quote_posix quote_powershell clean_rune sanitize_comment digits
    decimal header_line device_text revision_text count_text banner_text changes_text edit_text
    header unalias_block managed_names unset_line description_line alias_line alias_block zsh_hook
    posix_text function_block powershell_text has_control inject_legacy_migration inside_quotes
    decode_quoted_posix valid_legacy_device_line is_revision_digit valid_legacy_revision_line
    atoi_digits atoi parse_legacy_alias_count valid_legacy_description parse_legacy_alias_line
    skip_description follows take_alias take_block at_end legacy_names legacy_lines
    parse_legacy_posix_aliases migrate_legacy_posix_output fields_from fields ordered_names
    marker_names parse_current_legacy_migration carry_forward_legacy_posix_migration renderer_shell
    lookup_renderer renderer_for first_issue guard renderer_text render_with render and_then
    refuse_unsafe_destination or_close write_sync_close and_remove write_file_atomic shell_file_ext
    native_output_path of_disk native_apply native_backend chezmoi_backend decode_state load
    save_bytes save short_sha source_ref is_stale fetched_time disk_hash_matches migrated
    final_output prepare new_state report is_unchanged write_output sync_config sync_with_context
    kind inner_kind is_escapable lex_double_from lex_double_quoted is_expandable lex_from
    expansion_note lex_value after_keyword after_alias_keyword first_word strip_options blank_before
    assignment_at parse_assignment parse_definitions parse_statement flat_map
rendered = refl

one_line : IsOneLine config.revision
one_line = omega arith

keeps : IsKept same_text same_rune disk json context (at 5 config) first none 6 synced
keeps = record { file = kept_file; state = kept_state }

abbrev second_prepared : Prepared
second_prepared = record first {
  previous = new_state same_text same_rune disk json context (at 5 config) first none 6;
}

sync_config-again_example : sync_config same_text same_rune disk json context 7 8 config synced ≡ (
  ok (report same_text same_rune disk json context (at 7 config) second_prepared none true),
  synced,
)
sync_config-again_example =
    sync_config-again same_text same_rune disk json context 5 6 7 8 config fresh synced first none
      prepared rendered one_line some_hash keeps

abbrev nothing : Parsed
nothing = record { found = []; skipped = [] }

parse_definitions-fuel_example :
    parse_definitions (20 + 100) 1 (codes "alias a=b c='d e'") (codes "a=b c='d e'") nothing
    ≡ parse_definitions 20 1 (codes "alias a=b c='d e'") (codes "a=b c='d e'") nothing
parse_definitions-fuel_example =
    parse_definitions-fuel 20 100 1 (codes "alias a=b c='d e'") (codes "a=b c='d e'") nothing
      (omega arith)
