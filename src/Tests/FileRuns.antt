-- ===== src/Tests/FileRuns.antt =====
-- The theorems on generated files, at a concrete configuration.
use aliasdeck.Prelude.{◌≡◌, ◌≢◌, refl, inl, true, false, [], ◌∷◌, ◌++◌, In, arith}
use aliasdeck.Validate.Issues.{config_issues, loop_issues}
use aliasdeck.Prelude.{ok}
use aliasdeck.Text.{
  same, contains_text, text_leb, cut_prefix, has_prefix, trim_prefix, has_suffix, trim_suffix, cut,
  index, contains, replace_first, replace_from, replace_all, split, join, is_blank, trim_left_blank,
  index_where, to_lower_byte,
}
use aliasdeck.Utf8.{
  continues, second, two_bytes, three_bytes, four_bytes, decode_rune, decode_from, runes,
  count_runes, encode_rune, is_space, is_control, space_rune, trim_runes, trim_space,
}
use aliasdeck.Domain.Shell.{
  platform_valid, parse_platform, shell_valid, is_posix, parse_shell, default_shell_for,
}
use aliasdeck.Domain.Alias.{
  targets_platform, targets_shell, has_profile, shares_profile, targets_profiles, targets_device,
  miss, is_no_miss, applies_to,
}
use aliasdeck.Domain.Resolved.{
  insert_alias, sort_aliases, write_field, alias_fields, revision_input,
}
use aliasdeck.Validate.Name.{
  is_letter, is_inner, valid_runes_from, valid_name_runes, posix_reserved, powershell_reserved,
  to_lower_ascii, lower_rune, to_lower, is_reserved_word, check_name,
}
use aliasdeck.Validate.Command.{
  is_bad_control, first_where, first_control_rune, control_error, check_command, check_description,
}
use aliasdeck.Validate.Issues.{
  is_error, has_errors, errors, add_error, name_issues, command_issues, description_issues,
  platform_issues, shell_issues, alias_issues, duplicate_key, config_error, device_issues,
  count_issues,
}
use aliasdeck.Validate.Filter.{blocked_names, filter_aliases, filter_valid}
use aliasdeck.Renderers.Quote.{quote_posix, quote_powershell, clean_rune, sanitize_comment}
use aliasdeck.Renderers.Header.{
  digits, decimal, header_line, device_text, revision_text, count_text, banner_text, changes_text,
  edit_text, header,
}
use aliasdeck.Renderers.Posix.{
  unalias_block, managed_names, unset_line, description_line, alias_line, alias_block, zsh_hook,
  posix_text,
}
use aliasdeck.Renderers.PowerShell.{function_block, powershell_text}
use aliasdeck.Renderers.Render.{
  renderer_shell, lookup_renderer, renderer_for, first_issue, guard, renderer_text, render_with,
  render,
}
use aliasdeck.Renderers.PosixLines.{
  header_lines, unalias_lines, managed_names_line, description_lines, definition_line, alias_lines,
  hook_lines, posix_lines,
}
use mathlib.Core.List.{map, flat_map}
use aliasdeck.Text.{Bytes, codes, newline}
use aliasdeck.Domain.Resolved.{ResolvedConfig}
use aliasdeck.Domain.Resolution.{resolve-SameMembers}
use aliasdeck.Domain.Resolved.{resolve}
use aliasdeck.Text.Equality.{same_iff}
use aliasdeck.Validate.Kept.{config_issues-filter_valid, filter_valid-keeps, filter_valid-nameless}
use aliasdeck.Renderers.AfterFilter.{render-filter_valid}
use aliasdeck.Renderers.Safety.{split-render}
use aliasdeck.Importers.Lexer.{lex_value}
use aliasdeck.Importers.LexerLaws.{lex_value-quote_posix}
use aliasdeck.Importers.Posix.{parse_posix}
use aliasdeck.Importers.ReadLine.{definitions}
use aliasdeck.Importers.RoundTrip.{parse_posix-render}
use aliasdeck.Tests.Samples.{gs, ll, laptop, sample, nameless, same_rune}

-- The configuration is accepted: the text is the one that the renderer builds.
abbrev sample_file : Bytes
sample_file = posix_text (codes "zsh") sample

sample_renders : render same_rune sample ≡ ok sample_file
unfolding same contains_text text_leb cut_prefix has_prefix trim_prefix has_suffix trim_suffix cut
    index contains replace_first replace_from replace_all split join is_blank trim_left_blank
    index_where to_lower_byte continues second two_bytes three_bytes four_bytes decode_rune
    decode_from runes count_runes encode_rune is_space is_control space_rune trim_runes trim_space
    platform_valid parse_platform shell_valid is_posix parse_shell default_shell_for
    targets_platform targets_shell has_profile shares_profile targets_profiles targets_device miss
    is_no_miss applies_to insert_alias sort_aliases write_field alias_fields revision_input
    is_letter is_inner valid_runes_from valid_name_runes posix_reserved powershell_reserved
    to_lower_ascii lower_rune to_lower is_reserved_word check_name is_bad_control first_where
    first_control_rune control_error check_command check_description is_error has_errors errors
    add_error name_issues command_issues description_issues platform_issues shell_issues
    alias_issues duplicate_key config_error device_issues count_issues blocked_names filter_aliases
    filter_valid quote_posix quote_powershell clean_rune sanitize_comment digits decimal header_line
    device_text revision_text count_text banner_text changes_text edit_text header unalias_block
    managed_names unset_line description_line alias_line alias_block zsh_hook posix_text
    function_block powershell_text renderer_shell lookup_renderer renderer_for first_issue guard
    renderer_text render_with render header_lines unalias_lines managed_names_line description_lines
    definition_line alias_lines hook_lines posix_lines config_issues loop_issues flat_map
sample_renders = refl

sample_plain : has_prefix (sanitize_comment (codes "short")) (codes ">>> aliasdeck >>>") ≡ false
unfolding same contains_text text_leb cut_prefix has_prefix trim_prefix has_suffix trim_suffix cut
    index contains replace_first replace_from replace_all split join is_blank trim_left_blank
    index_where to_lower_byte continues second two_bytes three_bytes four_bytes decode_rune
    decode_from runes count_runes encode_rune is_space is_control space_rune trim_runes trim_space
    platform_valid parse_platform shell_valid is_posix parse_shell default_shell_for
    targets_platform targets_shell has_profile shares_profile targets_profiles targets_device miss
    is_no_miss applies_to insert_alias sort_aliases write_field alias_fields revision_input
    is_letter is_inner valid_runes_from valid_name_runes posix_reserved powershell_reserved
    to_lower_ascii lower_rune to_lower is_reserved_word check_name is_bad_control first_where
    first_control_rune control_error check_command check_description is_error has_errors errors
    add_error name_issues command_issues description_issues platform_issues shell_issues
    alias_issues duplicate_key config_error device_issues count_issues blocked_names filter_aliases
    filter_valid quote_posix quote_powershell clean_rune sanitize_comment digits decimal header_line
    device_text revision_text count_text banner_text changes_text edit_text header unalias_block
    managed_names unset_line description_line alias_line alias_block zsh_hook posix_text
    function_block powershell_text renderer_shell lookup_renderer renderer_for first_issue guard
    renderer_text render_with render header_lines unalias_lines managed_names_line description_lines
    definition_line alias_lines hook_lines posix_lines config_issues loop_issues flat_map
sample_plain = refl

empty_plain : has_prefix (sanitize_comment []) (codes ">>> aliasdeck >>>") ≡ false
unfolding same contains_text text_leb cut_prefix has_prefix trim_prefix has_suffix trim_suffix cut
    index contains replace_first replace_from replace_all split join is_blank trim_left_blank
    index_where to_lower_byte continues second two_bytes three_bytes four_bytes decode_rune
    decode_from runes count_runes encode_rune is_space is_control space_rune trim_runes trim_space
    platform_valid parse_platform shell_valid is_posix parse_shell default_shell_for
    targets_platform targets_shell has_profile shares_profile targets_profiles targets_device miss
    is_no_miss applies_to insert_alias sort_aliases write_field alias_fields revision_input
    is_letter is_inner valid_runes_from valid_name_runes posix_reserved powershell_reserved
    to_lower_ascii lower_rune to_lower is_reserved_word check_name is_bad_control first_where
    first_control_rune control_error check_command check_description is_error has_errors errors
    add_error name_issues command_issues description_issues platform_issues shell_issues
    alias_issues duplicate_key config_error device_issues count_issues blocked_names filter_aliases
    filter_valid quote_posix quote_powershell clean_rune sanitize_comment digits decimal header_line
    device_text revision_text count_text banner_text changes_text edit_text header unalias_block
    managed_names unset_line description_line alias_line alias_block zsh_hook posix_text
    function_block powershell_text renderer_shell lookup_renderer renderer_for first_issue guard
    renderer_text render_with render header_lines unalias_lines managed_names_line description_lines
    definition_line alias_lines hook_lines posix_lines config_issues loop_issues flat_map
empty_plain = refl

zsh_posix : is_posix (codes "zsh") ≡ true
unfolding same contains_text text_leb cut_prefix has_prefix trim_prefix has_suffix trim_suffix cut
    index contains replace_first replace_from replace_all split join is_blank trim_left_blank
    index_where to_lower_byte continues second two_bytes three_bytes four_bytes decode_rune
    decode_from runes count_runes encode_rune is_space is_control space_rune trim_runes trim_space
    platform_valid parse_platform shell_valid is_posix parse_shell default_shell_for
    targets_platform targets_shell has_profile shares_profile targets_profiles targets_device miss
    is_no_miss applies_to insert_alias sort_aliases write_field alias_fields revision_input
    is_letter is_inner valid_runes_from valid_name_runes posix_reserved powershell_reserved
    to_lower_ascii lower_rune to_lower is_reserved_word check_name is_bad_control first_where
    first_control_rune control_error check_command check_description is_error has_errors errors
    add_error name_issues command_issues description_issues platform_issues shell_issues
    alias_issues duplicate_key config_error device_issues count_issues blocked_names filter_aliases
    filter_valid quote_posix quote_powershell clean_rune sanitize_comment digits decimal header_line
    device_text revision_text count_text banner_text changes_text edit_text header unalias_block
    managed_names unset_line description_line alias_line alias_block zsh_hook posix_text
    function_block powershell_text renderer_shell lookup_renderer renderer_for first_issue guard
    renderer_text render_with render header_lines unalias_lines managed_names_line description_lines
    definition_line alias_lines hook_lines posix_lines config_issues loop_issues flat_map
zsh_posix = refl

parse_posix-render_example :
    (definitions (parse_posix sample_file)
      ≡ map (λ a. (a.name, a.command, [])) (sort_aliases (ll ∷ gs ∷ [])))
    × ((parse_posix sample_file).skipped ≡ [])
parse_posix-render_example =
    parse_posix-render same_rune sample sample_file sample_renders zsh_posix (omega arith)
      (empty_plain, (sample_plain, tt))

split-render_example : split newline sample_file ≡ posix_lines (codes "zsh") sample ++ [] ∷ []
split-render_example =
    split-render same_rune sample sample_file sample_renders zsh_posix (omega arith)

lex_value-quote_posix_example :
    lex_value (quote_posix (codes "ls 'a'") ++ codes " x") ≡ (codes "ls 'a'", [], codes " x")
unfolding is_blank
lex_value-quote_posix_example = lex_value-quote_posix (codes "ls 'a'") (codes " x") refl

platform_known : platform_valid (codes "macos") ≡ true
unfolding same contains_text text_leb cut_prefix has_prefix trim_prefix has_suffix trim_suffix cut
    index contains replace_first replace_from replace_all split join is_blank trim_left_blank
    index_where to_lower_byte continues second two_bytes three_bytes four_bytes decode_rune
    decode_from runes count_runes encode_rune is_space is_control space_rune trim_runes trim_space
    platform_valid parse_platform shell_valid is_posix parse_shell default_shell_for
    targets_platform targets_shell has_profile shares_profile targets_profiles targets_device miss
    is_no_miss applies_to insert_alias sort_aliases write_field alias_fields revision_input
    is_letter is_inner valid_runes_from valid_name_runes posix_reserved powershell_reserved
    to_lower_ascii lower_rune to_lower is_reserved_word check_name is_bad_control first_where
    first_control_rune control_error check_command check_description is_error has_errors errors
    add_error name_issues command_issues description_issues platform_issues shell_issues
    alias_issues duplicate_key config_error device_issues count_issues blocked_names filter_aliases
    filter_valid quote_posix quote_powershell clean_rune sanitize_comment digits decimal header_line
    device_text revision_text count_text banner_text changes_text edit_text header unalias_block
    managed_names unset_line description_line alias_line alias_block zsh_hook posix_text
    function_block powershell_text renderer_shell lookup_renderer renderer_for first_issue guard
    renderer_text render_with render header_lines unalias_lines managed_names_line description_lines
    definition_line alias_lines hook_lines posix_lines config_issues loop_issues flat_map
platform_known = refl

shell_known : shell_valid (codes "zsh") ≡ true
unfolding same contains_text text_leb cut_prefix has_prefix trim_prefix has_suffix trim_suffix cut
    index contains replace_first replace_from replace_all split join is_blank trim_left_blank
    index_where to_lower_byte continues second two_bytes three_bytes four_bytes decode_rune
    decode_from runes count_runes encode_rune is_space is_control space_rune trim_runes trim_space
    platform_valid parse_platform shell_valid is_posix parse_shell default_shell_for
    targets_platform targets_shell has_profile shares_profile targets_profiles targets_device miss
    is_no_miss applies_to insert_alias sort_aliases write_field alias_fields revision_input
    is_letter is_inner valid_runes_from valid_name_runes posix_reserved powershell_reserved
    to_lower_ascii lower_rune to_lower is_reserved_word check_name is_bad_control first_where
    first_control_rune control_error check_command check_description is_error has_errors errors
    add_error name_issues command_issues description_issues platform_issues shell_issues
    alias_issues duplicate_key config_error device_issues count_issues blocked_names filter_aliases
    filter_valid quote_posix quote_powershell clean_rune sanitize_comment digits decimal header_line
    device_text revision_text count_text banner_text changes_text edit_text header unalias_block
    managed_names unset_line description_line alias_line alias_block zsh_hook posix_text
    function_block powershell_text renderer_shell lookup_renderer renderer_for first_issue guard
    renderer_text render_with render header_lines unalias_lines managed_names_line description_lines
    definition_line alias_lines hook_lines posix_lines config_issues loop_issues flat_map
shell_known = refl

gs_clean : alias_issues gs (codes "zsh") ≡ []
unfolding same contains_text text_leb cut_prefix has_prefix trim_prefix has_suffix trim_suffix cut
    index contains replace_first replace_from replace_all split join is_blank trim_left_blank
    index_where to_lower_byte continues second two_bytes three_bytes four_bytes decode_rune
    decode_from runes count_runes encode_rune is_space is_control space_rune trim_runes trim_space
    platform_valid parse_platform shell_valid is_posix parse_shell default_shell_for
    targets_platform targets_shell has_profile shares_profile targets_profiles targets_device miss
    is_no_miss applies_to insert_alias sort_aliases write_field alias_fields revision_input
    is_letter is_inner valid_runes_from valid_name_runes posix_reserved powershell_reserved
    to_lower_ascii lower_rune to_lower is_reserved_word check_name is_bad_control first_where
    first_control_rune control_error check_command check_description is_error has_errors errors
    add_error name_issues command_issues description_issues platform_issues shell_issues
    alias_issues duplicate_key config_error device_issues count_issues blocked_names filter_aliases
    filter_valid quote_posix quote_powershell clean_rune sanitize_comment digits decimal header_line
    device_text revision_text count_text banner_text changes_text edit_text header unalias_block
    managed_names unset_line description_line alias_line alias_block zsh_hook posix_text
    function_block powershell_text renderer_shell lookup_renderer renderer_for first_issue guard
    renderer_text render_with render header_lines unalias_lines managed_names_line description_lines
    definition_line alias_lines hook_lines posix_lines config_issues loop_issues flat_map
gs_clean = refl

keys_not_same :
    same
      (duplicate_key same_rune (codes "ll") (codes "zsh"))
      (duplicate_key same_rune (codes "gs") (codes "zsh"))
    ≡ false
unfolding same contains_text text_leb cut_prefix has_prefix trim_prefix has_suffix trim_suffix cut
    index contains replace_first replace_from replace_all split join is_blank trim_left_blank
    index_where to_lower_byte continues second two_bytes three_bytes four_bytes decode_rune
    decode_from runes count_runes encode_rune is_space is_control space_rune trim_runes trim_space
    platform_valid parse_platform shell_valid is_posix parse_shell default_shell_for
    targets_platform targets_shell has_profile shares_profile targets_profiles targets_device miss
    is_no_miss applies_to insert_alias sort_aliases write_field alias_fields revision_input
    is_letter is_inner valid_runes_from valid_name_runes posix_reserved powershell_reserved
    to_lower_ascii lower_rune to_lower is_reserved_word check_name is_bad_control first_where
    first_control_rune control_error check_command check_description is_error has_errors errors
    add_error name_issues command_issues description_issues platform_issues shell_issues
    alias_issues duplicate_key config_error device_issues count_issues blocked_names filter_aliases
    filter_valid quote_posix quote_powershell clean_rune sanitize_comment digits decimal header_line
    device_text revision_text count_text banner_text changes_text edit_text header unalias_block
    managed_names unset_line description_line alias_line alias_block zsh_hook posix_text
    function_block powershell_text renderer_shell lookup_renderer renderer_for first_issue guard
    renderer_text render_with render header_lines unalias_lines managed_names_line description_lines
    definition_line alias_lines hook_lines posix_lines config_issues loop_issues flat_map
keys_not_same = refl

keys_differ :
    duplicate_key same_rune (codes "ll") (codes "zsh")
    ≢ duplicate_key same_rune (codes "gs") (codes "zsh")
keys_differ = λ e. cc (
  keys_not_same,
  (same_iff (duplicate_key same_rune (codes "ll") (codes "zsh"))
        (duplicate_key same_rune (codes "gs") (codes "zsh"))).1
      e,
)

-- A configuration with a broken command.
abbrev mixed : ResolvedConfig
mixed = record sample { aliases = record ll { command = codes "a\nb" } ∷ gs ∷ [] }

config_issues-filter_valid_example : config_issues same_rune (filter_valid same_rune mixed).0 ≡ []
config_issues-filter_valid_example =
    config_issues-filter_valid same_rune mixed platform_known shell_known (omega arith)
      (λ e. cc (e), (λ e. cc (e), tt))

render-filter_valid_example :
    (text : Bytes) × (render same_rune (filter_valid same_rune mixed).0 ≡ ok text)
render-filter_valid_example =
    render-filter_valid same_rune mixed platform_known shell_known (omega arith)
      (λ e. cc (e), (λ e. cc (e), tt))

filter_valid-keeps_example : In gs (filter_valid same_rune mixed).0.aliases
filter_valid-keeps_example =
    filter_valid-keeps same_rune mixed gs (record ll { command = codes "a\nb" } ∷ []) [] refl
      gs_clean (keys_differ, tt) tt

abbrev with_nameless : ResolvedConfig
with_nameless = record sample { aliases = nameless ∷ gs ∷ [] }

filter_valid-nameless_example :
    In nameless (filter_valid same_rune with_nameless).0.aliases
    × (config_issues same_rune (filter_valid same_rune with_nameless).0 ≢ [])
filter_valid-nameless_example =
    filter_valid-nameless same_rune with_nameless nameless (inl refl) refl

names_not_same : (same (codes "gs") (codes "ll") ≡ false) × (same (codes "ll") (codes "gs") ≡ false)
unfolding same
names_not_same = (refl, refl)

names_differ : (codes "gs" ≢ codes "ll") × (codes "ll" ≢ codes "gs")
names_differ = (
  λ e. cc (names_not_same.0, (same_iff (codes "gs") (codes "ll")).1 e),
  λ e. cc (names_not_same.1, (same_iff (codes "ll") (codes "gs")).1 e),
)

resolve-SameMembers_example :
    resolve (λ s. s) laptop (ll ∷ gs ∷ []) ≡ resolve (λ s. s) laptop (gs ∷ ll ∷ [])
resolve-SameMembers_example =
    resolve-SameMembers (λ s. s) laptop (ll ∷ gs ∷ []) (gs ∷ ll ∷ [])
      ((names_differ.0, tt), (tt, tt)) ((names_differ.1, tt), (tt, tt))
      λ a. (λ i. ground arith, λ i. ground arith)
