-- ===== src/Tests/SourceRuns.antt =====
-- The theorems on sources and on a sync between client and server, at concrete inputs.
use aliasdeck.Prelude.{
  ℕ, suc, ◌≡◌, refl, ◌⊎◌, Bool, true, false, List, [], ◌∷◌, ◌++◌, none, some, All, is_some, arith,
}
use aliasdeck.Prelude.{Result, ok, err}
use mathlib.Core.List.{map, flat_map}
use aliasdeck.Text.{
  same, contains_text, text_leb, cut_prefix, has_prefix, trim_prefix, has_suffix, trim_suffix, cut,
  index, contains, replace_first, replace_from, replace_all, split, join, is_blank, trim_left_blank,
  index_where, to_lower_byte,
}
use aliasdeck.Utf8.{
  continues, second, two_bytes, three_bytes, four_bytes, decode_rune, decode_from, runes,
  count_runes, encode_rune, is_space, is_control, space_rune, trim_runes, trim_space,
}
use aliasdeck.Domain.Shell.{
  platform_valid, parse_platform, shell_valid, is_posix, parse_shell, default_shell_for,
}
use aliasdeck.Domain.Alias.{
  targets_platform, targets_shell, has_profile, shares_profile, targets_profiles, targets_device,
  miss, is_no_miss, applies_to,
}
use aliasdeck.Domain.Resolved.{
  insert_alias, sort_aliases, write_field, alias_fields, revision_input, compute_revision, resolve,
}
use aliasdeck.Validate.Command.{
  is_bad_control, first_where, first_control_rune, control_error, check_command, check_description,
}
use aliasdeck.Validate.Name.{
  is_letter, is_inner, valid_runes_from, valid_name_runes, posix_reserved, powershell_reserved,
  to_lower_ascii, lower_rune, to_lower, is_reserved_word, check_name,
}
use aliasdeck.Validate.Issues.{
  is_error, has_errors, errors, add_error, name_issues, command_issues, description_issues,
  platform_issues, shell_issues, alias_issues, duplicate_key, config_error, device_issues,
  count_issues, loop_issues, config_issues,
}
use aliasdeck.Validate.Filter.{blocked_names, filter_aliases, filter_valid}
use aliasdeck.Config.Aliases.{
  max_aliases_file_size, parse_each, parse_platforms, parse_shells, enabled_or_default, to_domain,
  to_domain_all, from_domain, alias_warnings, profile_warnings, read_dto, parse_aliases,
  document_dto, marshal_aliases,
}
use aliasdeck.Auth.Token.{
  token_prefix, kind_byte, byte_kind, wire_text, mint, parse_fields, parse_kind, parse,
  verify_secret, verify, consume_enrollment,
}
use aliasdeck.Auth.Middleware.{bearer_token, admit, require_kind}
use aliasdeck.Source.Url.{is_loopback_host, check_url, validate_server_url}
use aliasdeck.Source.Wire.{wire_device, wire_alias, check_revision, to_resolved_config}
use aliasdeck.Source.Server.{
  server_error_message, read_response, bearer_request, exchange, decode_body, fetch_sync, accept,
  resolve_unfiltered, filtered, server_resolve, heartbeat,
}
use aliasdeck.Source.File.{resolve_file}
use aliasdeck.Source.Git.{
  validate_git_url, validate_git_ref, git_aliases_path, git_then, os_then, update_checkout,
  reset_checkout, fetch_or_clone, commit_of, checkout_fetched_at, read_checkout, git_resolve,
}
use aliasdeck.Api.Errors.{store_error}
use aliasdeck.Api.Sync.{
  parse_sync_platform, parse_sync_shell, sync_resolve, sync_response, reported, sync_device,
  handle_sync, sync_route,
}
use aliasdeck.Text.{Bytes, codes}
use aliasdeck.Domain.Alias.{Alias, Device}
use aliasdeck.Domain.Resolved.{ResolvedConfig}
use aliasdeck.Domain.Sort.{IsSorted}
use aliasdeck.Domain.Revision.{content}
use aliasdeck.Auth.Token.{Token, token_kind_device}
use aliasdeck.Auth.Middleware.{Subject}
use aliasdeck.Store.Errors.{StoreError}
use aliasdeck.Config.Aliases.{AliasesFileDto}
use aliasdeck.Apply.Atomic.{Disk, not_exist}
use aliasdeck.Source.Url.{Net, Url, UrlError, IsSafe, validate_server_url_iff}
use aliasdeck.Source.WireLaws.{received, sent_device, to_resolved_config-ok}
use aliasdeck.Source.Server.{ServerSource, Http, refused_url}
use aliasdeck.Source.ServerLaws.{
  IsFetched, insecure_url_sends_nothing, resolve_unfiltered-IsFetched,
}
use aliasdeck.Source.Git.{GitSource, Git, GitError, GitInfo}
use aliasdeck.Source.GitLaws.{IsAllowed, IsKeptBy, git_resolve-kept, IsRead, git_resolve-ok}
use aliasdeck.Api.Sync.{SyncResponse, SyncStore}
use aliasdeck.Api.SyncLaws.{IsSynced, sync_route-IsSynced, wire_of}
use aliasdeck.Api.RoundTrip.{IsConnected, resolve_unfiltered-sync_route}
use aliasdeck.Tests.Samples.{gs, ll, laptop, same_rune}

-- A stand-in for SHA-256.
abbrev same_text : Bytes → Bytes
same_text s = s

abbrev device_token : Token
device_token = record {
  id = codes "t1";
  lookup = codes "abc";
  kind = token_kind_device;
  subject_id = codes "d1";
  secret_hash = codes "secret";
  profile_ids = [];
  created_at = 1;
  expires_at = 0;
  used_at = 0;
  revoked_at = 0;
}

-- A server that counts the syncs.
abbrev token_of : ℕ → Bytes → Result StoreError Token
token_of w lookup = ok device_token

abbrev store : SyncStore ℕ
store = record {
  get_device = λ id w. ok laptop;
  list_aliases = λ w. ok (ll ∷ gs ∷ []);
  touch = λ id platform shell now w. (none, suc w);
}

abbrev resolved : ResolvedConfig
resolved = resolve same_text (reported (codes "macos") (codes "zsh") laptop) (ll ∷ gs ∷ [])

abbrev answer : SyncResponse
answer = sync_response 5 resolved

abbrev net : Net Unit
net = record {
  parse_url = λ raw. some (record { scheme = codes "https"; hostname = codes "example.org" });
  parse_ip = λ host. none;
  ip_is_loopback = λ ip. false;
}

abbrev http : Http ℕ
http = record {
  sync_url = λ url platform shell. some url;
  heartbeat_url = λ url. some url;
  is_request = λ req. true;
  send = λ req w. (ok (record { status = 200; body = some (codes "json") }), suc w);
  decode_sync = λ body. some (wire_of answer);
  error_message = λ body. none;
}

abbrev source : ServerSource
source = record {
  url = codes "https://example.org";
  token = codes "add_abc.secret";
  allow_http = false;
}

safe : validate_server_url net source.url source.allow_http ≡ none
unfolding same contains_text text_leb cut_prefix has_prefix trim_prefix has_suffix trim_suffix cut
    index contains replace_first replace_from replace_all split join is_blank trim_left_blank
    index_where to_lower_byte continues second two_bytes three_bytes four_bytes decode_rune
    decode_from runes count_runes encode_rune is_space is_control space_rune trim_runes trim_space
    platform_valid parse_platform shell_valid is_posix parse_shell default_shell_for
    targets_platform targets_shell has_profile shares_profile targets_profiles targets_device miss
    is_no_miss applies_to insert_alias sort_aliases write_field alias_fields revision_input
    compute_revision resolve is_bad_control first_where first_control_rune control_error
    check_command check_description is_letter is_inner valid_runes_from valid_name_runes
    posix_reserved powershell_reserved to_lower_ascii lower_rune to_lower is_reserved_word
    check_name is_error has_errors errors add_error name_issues command_issues description_issues
    platform_issues shell_issues alias_issues duplicate_key config_error device_issues count_issues
    loop_issues config_issues blocked_names filter_aliases filter_valid max_aliases_file_size
    parse_each parse_platforms parse_shells enabled_or_default to_domain to_domain_all from_domain
    alias_warnings profile_warnings read_dto parse_aliases document_dto marshal_aliases token_prefix
    kind_byte byte_kind wire_text mint parse_fields parse_kind parse verify_secret verify
    consume_enrollment bearer_token admit require_kind is_loopback_host check_url
    validate_server_url wire_device wire_alias check_revision to_resolved_config
    server_error_message read_response bearer_request exchange decode_body fetch_sync accept
    resolve_unfiltered filtered server_resolve heartbeat resolve_file validate_git_url
    validate_git_ref git_aliases_path git_then os_then update_checkout reset_checkout fetch_or_clone
    commit_of checkout_fetched_at read_checkout git_resolve store_error parse_sync_platform
    parse_sync_shell sync_resolve sync_response reported sync_device handle_sync sync_route flat_map
safe = refl

served :
    sync_route same_text same_text token_of store
      (bearer_request
        (codes "GET")
        (codes "https://example.org")
        (codes "add_abc.secret")).authorization
      (codes "macos")
      (codes "zsh")
      5
      0
    ≡ (ok answer, 1)
unfolding same contains_text text_leb cut_prefix has_prefix trim_prefix has_suffix trim_suffix cut
    index contains replace_first replace_from replace_all split join is_blank trim_left_blank
    index_where to_lower_byte continues second two_bytes three_bytes four_bytes decode_rune
    decode_from runes count_runes encode_rune is_space is_control space_rune trim_runes trim_space
    platform_valid parse_platform shell_valid is_posix parse_shell default_shell_for
    targets_platform targets_shell has_profile shares_profile targets_profiles targets_device miss
    is_no_miss applies_to insert_alias sort_aliases write_field alias_fields revision_input
    compute_revision resolve is_bad_control first_where first_control_rune control_error
    check_command check_description is_letter is_inner valid_runes_from valid_name_runes
    posix_reserved powershell_reserved to_lower_ascii lower_rune to_lower is_reserved_word
    check_name is_error has_errors errors add_error name_issues command_issues description_issues
    platform_issues shell_issues alias_issues duplicate_key config_error device_issues count_issues
    loop_issues config_issues blocked_names filter_aliases filter_valid max_aliases_file_size
    parse_each parse_platforms parse_shells enabled_or_default to_domain to_domain_all from_domain
    alias_warnings profile_warnings read_dto parse_aliases document_dto marshal_aliases token_prefix
    kind_byte byte_kind wire_text mint parse_fields parse_kind parse verify_secret verify
    consume_enrollment bearer_token admit require_kind is_loopback_host check_url
    validate_server_url wire_device wire_alias check_revision to_resolved_config
    server_error_message read_response bearer_request exchange decode_body fetch_sync accept
    resolve_unfiltered filtered server_resolve heartbeat resolve_file validate_git_url
    validate_git_ref git_aliases_path git_then os_then update_checkout reset_checkout fetch_or_clone
    commit_of checkout_fetched_at read_checkout git_resolve store_error parse_sync_platform
    parse_sync_shell sync_resolve sync_response reported sync_device handle_sync sync_route flat_map
served = refl

connected : IsConnected same_text same_text token_of store http source laptop 5 0 answer 1
connected = record {
  url = codes "https://example.org";
  body = codes "json";
  asked = refl;
  built = refl;
  served = served;
  answered = refl;
  short = omega arith;
  decoded = refl;
}

resolve_unfiltered-sync_route_example :
    (c : ResolvedConfig) × (subj : Subject) × (stored : Device) × (aliases : List Alias)
    × (resolve_unfiltered same_text net http source laptop 0 ≡ (ok c, 1))
    × (require_kind same_text
          (token_of 0)
          token_kind_device
          5
          (bearer_request (codes "GET") connected.url source.token).authorization
        ≡ some subj)
    × (store.get_device subj.subject_id 0 ≡ ok stored)
    × (store.list_aliases 0 ≡ ok aliases)
    × (c.revision ≡ answer.revision)
    × (sent_device c.device ≡ record {
      id = stored.id;
      name = stored.name;
      platform = laptop.platform;
      shell = laptop.shell;
      profile_ids = stored.profile_ids;
    })
    × (map content c.aliases
        ≡ map content
            (resolve same_text
              (record stored { platform = laptop.platform; shell = laptop.shell })
              aliases).aliases)
resolve_unfiltered-sync_route_example =
    resolve_unfiltered-sync_route same_text same_text token_of store net http source laptop 5 0 1
      answer safe connected

sync_route-IsSynced_example :
    (subj : Subject) × (require_kind same_text
        (token_of 0)
        token_kind_device
        5
        (bearer_request
          (codes "GET")
          (codes "https://example.org")
          (codes "add_abc.secret")).authorization
      ≡ some subj)
    × IsSynced same_text store subj.subject_id (codes "macos") (codes "zsh") 5 0 answer 1
sync_route-IsSynced_example =
    sync_route-IsSynced same_text store same_text token_of
      (bearer_request (codes "GET") (codes "https://example.org")
        (codes "add_abc.secret")).authorization
      (codes "macos") (codes "zsh") 5 0 answer 1 served

abbrev accepted : ResolvedConfig
accepted =
    resolve same_text (wire_device (sent_device laptop) (codes "macos") (codes "zsh"))
      (received resolved.aliases)

accepts : to_resolved_config same_text (wire_of answer) ≡ ok accepted
unfolding same contains_text text_leb cut_prefix has_prefix trim_prefix has_suffix trim_suffix cut
    index contains replace_first replace_from replace_all split join is_blank trim_left_blank
    index_where to_lower_byte continues second two_bytes three_bytes four_bytes decode_rune
    decode_from runes count_runes encode_rune is_space is_control space_rune trim_runes trim_space
    platform_valid parse_platform shell_valid is_posix parse_shell default_shell_for
    targets_platform targets_shell has_profile shares_profile targets_profiles targets_device miss
    is_no_miss applies_to insert_alias sort_aliases write_field alias_fields revision_input
    compute_revision resolve is_bad_control first_where first_control_rune control_error
    check_command check_description is_letter is_inner valid_runes_from valid_name_runes
    posix_reserved powershell_reserved to_lower_ascii lower_rune to_lower is_reserved_word
    check_name is_error has_errors errors add_error name_issues command_issues description_issues
    platform_issues shell_issues alias_issues duplicate_key config_error device_issues count_issues
    loop_issues config_issues blocked_names filter_aliases filter_valid max_aliases_file_size
    parse_each parse_platforms parse_shells enabled_or_default to_domain to_domain_all from_domain
    alias_warnings profile_warnings read_dto parse_aliases document_dto marshal_aliases token_prefix
    kind_byte byte_kind wire_text mint parse_fields parse_kind parse verify_secret verify
    consume_enrollment bearer_token admit require_kind is_loopback_host check_url
    validate_server_url wire_device wire_alias check_revision to_resolved_config
    server_error_message read_response bearer_request exchange decode_body fetch_sync accept
    resolve_unfiltered filtered server_resolve heartbeat resolve_file validate_git_url
    validate_git_ref git_aliases_path git_then os_then update_checkout reset_checkout fetch_or_clone
    commit_of checkout_fetched_at read_checkout git_resolve store_error parse_sync_platform
    parse_sync_shell sync_resolve sync_response reported sync_device handle_sync sync_route flat_map
accepts = refl

to_resolved_config-ok_example :
    (accepted.revision ≡ (wire_of answer).revision)
    × (compute_revision same_text accepted ≡ (wire_of answer).revision)
    × IsSorted accepted.aliases
    × (platform_valid accepted.device.platform ≡ true)
    × (shell_valid accepted.device.shell ≡ true)
to_resolved_config-ok_example = to_resolved_config-ok same_text (wire_of answer) accepted accepts

fetched : resolve_unfiltered same_text net http source laptop 0 ≡ (ok accepted, 1)
unfolding same contains_text text_leb cut_prefix has_prefix trim_prefix has_suffix trim_suffix cut
    index contains replace_first replace_from replace_all split join is_blank trim_left_blank
    index_where to_lower_byte continues second two_bytes three_bytes four_bytes decode_rune
    decode_from runes count_runes encode_rune is_space is_control space_rune trim_runes trim_space
    platform_valid parse_platform shell_valid is_posix parse_shell default_shell_for
    targets_platform targets_shell has_profile shares_profile targets_profiles targets_device miss
    is_no_miss applies_to insert_alias sort_aliases write_field alias_fields revision_input
    compute_revision resolve is_bad_control first_where first_control_rune control_error
    check_command check_description is_letter is_inner valid_runes_from valid_name_runes
    posix_reserved powershell_reserved to_lower_ascii lower_rune to_lower is_reserved_word
    check_name is_error has_errors errors add_error name_issues command_issues description_issues
    platform_issues shell_issues alias_issues duplicate_key config_error device_issues count_issues
    loop_issues config_issues blocked_names filter_aliases filter_valid max_aliases_file_size
    parse_each parse_platforms parse_shells enabled_or_default to_domain to_domain_all from_domain
    alias_warnings profile_warnings read_dto parse_aliases document_dto marshal_aliases token_prefix
    kind_byte byte_kind wire_text mint parse_fields parse_kind parse verify_secret verify
    consume_enrollment bearer_token admit require_kind is_loopback_host check_url
    validate_server_url wire_device wire_alias check_revision to_resolved_config
    server_error_message read_response bearer_request exchange decode_body fetch_sync accept
    resolve_unfiltered filtered server_resolve heartbeat resolve_file validate_git_url
    validate_git_ref git_aliases_path git_then os_then update_checkout reset_checkout fetch_or_clone
    commit_of checkout_fetched_at read_checkout git_resolve store_error parse_sync_platform
    parse_sync_shell sync_resolve sync_response reported sync_device handle_sync sync_route flat_map
fetched = refl

resolve_unfiltered-IsFetched_example :
    ((u : Url) × (net.parse_url source.url ≡ some u) × IsSafe net source.allow_http u)
    × IsFetched same_text http source laptop 0 accepted 1
resolve_unfiltered-IsFetched_example =
    resolve_unfiltered-IsFetched same_text net http source laptop 0 accepted 1 fetched

abbrev plain_net : Net Unit
plain_net = record net {
  parse_url = λ raw. some (record { scheme = codes "http"; hostname = codes "example.org" });
}

refused : is_some (validate_server_url plain_net source.url source.allow_http) ≡ true
unfolding same contains_text text_leb cut_prefix has_prefix trim_prefix has_suffix trim_suffix cut
    index contains replace_first replace_from replace_all split join is_blank trim_left_blank
    index_where to_lower_byte continues second two_bytes three_bytes four_bytes decode_rune
    decode_from runes count_runes encode_rune is_space is_control space_rune trim_runes trim_space
    platform_valid parse_platform shell_valid is_posix parse_shell default_shell_for
    targets_platform targets_shell has_profile shares_profile targets_profiles targets_device miss
    is_no_miss applies_to insert_alias sort_aliases write_field alias_fields revision_input
    compute_revision resolve is_bad_control first_where first_control_rune control_error
    check_command check_description is_letter is_inner valid_runes_from valid_name_runes
    posix_reserved powershell_reserved to_lower_ascii lower_rune to_lower is_reserved_word
    check_name is_error has_errors errors add_error name_issues command_issues description_issues
    platform_issues shell_issues alias_issues duplicate_key config_error device_issues count_issues
    loop_issues config_issues blocked_names filter_aliases filter_valid max_aliases_file_size
    parse_each parse_platforms parse_shells enabled_or_default to_domain to_domain_all from_domain
    alias_warnings profile_warnings read_dto parse_aliases document_dto marshal_aliases token_prefix
    kind_byte byte_kind wire_text mint parse_fields parse_kind parse verify_secret verify
    consume_enrollment bearer_token admit require_kind is_loopback_host check_url
    validate_server_url wire_device wire_alias check_revision to_resolved_config
    server_error_message read_response bearer_request exchange decode_body fetch_sync accept
    resolve_unfiltered filtered server_resolve heartbeat resolve_file validate_git_url
    validate_git_ref git_aliases_path git_then os_then update_checkout reset_checkout fetch_or_clone
    commit_of checkout_fetched_at read_checkout git_resolve store_error parse_sync_platform
    parse_sync_shell sync_resolve sync_response reported sync_device handle_sync sync_route flat_map
refused = refl

never-IsSafe :
    (u : Url) → plain_net.parse_url source.url ≡ some u → ¬ IsSafe plain_net source.allow_http u
never-IsSafe u e s =
    let accepted_url =
      (validate_server_url_iff plain_net source.url source.allow_http).1 (u, e, s) in
    cc (refused, accepted_url)

insecure_url_sends_nothing_example :
    (e : UrlError) × (server_resolve same_text same_rune plain_net http source laptop 0
      ≡ (err (refused_url e), 0))
    × (heartbeat plain_net http source 0 ≡ (some (refused_url e), 0))
insecure_url_sends_nothing_example =
    insecure_url_sends_nothing same_text same_rune plain_net http source laptop 0 never-IsSafe

-- A machine that notes the git commands, each of which fails.
abbrev Log : Type 0
Log = List (List Bytes)

abbrev git : Git Log
git = record {
  run = λ dir args w. (err (codes "offline"), args ∷ w);
  is_dir = λ path w. ok true;
  modified = λ path w. none;
  mkdir_all = λ dir mode w. (ok tt, w);
  chmod = λ dir mode w. (ok tt, w);
  join = λ a b. a ++ (codes "/" ++ b);
  rel = λ a b. some b;
  dir = λ path. path;
  separator = codes "/";
}

abbrev disk : Disk Log
disk = record {
  dir = λ path. path;
  base = λ path. path;
  eval_symlinks = λ path w. ok path;
  stat_mode = λ path w. ok 0o644;
  read_file = λ path w. ok (codes "yaml");
  lstat = λ path w. err not_exist;
  mkdir_all = λ path w. (ok tt, w);
  create_temp = λ dir pattern w. (ok pattern, w);
  chmod = λ path mode w. (ok tt, w);
  write = λ path bytes w. (ok tt, w);
  sync = λ path w. (ok tt, w);
  close = λ path w. (ok tt, w);
  rename = λ old new w. (ok tt, w);
  remove = λ path w. (ok tt, w);
}

abbrev decode_yaml : Bytes → Result Bytes AliasesFileDto
decode_yaml bytes = ok (record { version = 1; profiles = []; aliases = [] })

abbrev repository : GitSource
repository = record {
  url = codes "https://example.org/a.git";
  ref = [];
  path = [];
  cache_dir = codes "/cache";
}

keeps_log : IsKeptBy git repository (λ log. All (IsAllowed repository) log)
keeps_log = record {
  kept_run = λ dir args w a h. (a, h);
  kept_mkdir = λ dir mode w h. h;
  kept_chmod = λ dir mode w h. h;
}

git_resolve-kept_example :
    All
      (IsAllowed repository)
      (git_resolve same_text same_rune decode_yaml disk git repository laptop []).1
git_resolve-kept_example =
    git_resolve-kept (λ log. All (IsAllowed repository) log) same_text same_rune decode_yaml disk
      git repository laptop keeps_log [] tt

abbrev nothing : ResolvedConfig
nothing = resolve same_text laptop []

abbrev stale_info : GitInfo
stale_info = record { resolved_ref = codes "HEAD"; commit = []; fetched_at = 0; stale = true }

abbrev log_after : Log
log_after =
    (codes "rev-parse" ∷ codes "HEAD" ∷ [])
    ∷ (codes "fetch" ∷ codes "--quiet" ∷ codes "--prune" ∷ codes "origin" ∷ [])
    ∷ []

served_stale :
    git_resolve same_text same_rune decode_yaml disk git repository laptop []
    ≡ (ok (nothing, stale_info), log_after)
unfolding same contains_text text_leb cut_prefix has_prefix trim_prefix has_suffix trim_suffix cut
    index contains replace_first replace_from replace_all split join is_blank trim_left_blank
    index_where to_lower_byte continues second two_bytes three_bytes four_bytes decode_rune
    decode_from runes count_runes encode_rune is_space is_control space_rune trim_runes trim_space
    platform_valid parse_platform shell_valid is_posix parse_shell default_shell_for
    targets_platform targets_shell has_profile shares_profile targets_profiles targets_device miss
    is_no_miss applies_to insert_alias sort_aliases write_field alias_fields revision_input
    compute_revision resolve is_bad_control first_where first_control_rune control_error
    check_command check_description is_letter is_inner valid_runes_from valid_name_runes
    posix_reserved powershell_reserved to_lower_ascii lower_rune to_lower is_reserved_word
    check_name is_error has_errors errors add_error name_issues command_issues description_issues
    platform_issues shell_issues alias_issues duplicate_key config_error device_issues count_issues
    loop_issues config_issues blocked_names filter_aliases filter_valid max_aliases_file_size
    parse_each parse_platforms parse_shells enabled_or_default to_domain to_domain_all from_domain
    alias_warnings profile_warnings read_dto parse_aliases document_dto marshal_aliases token_prefix
    kind_byte byte_kind wire_text mint parse_fields parse_kind parse verify_secret verify
    consume_enrollment bearer_token admit require_kind is_loopback_host check_url
    validate_server_url wire_device wire_alias check_revision to_resolved_config
    server_error_message read_response bearer_request exchange decode_body fetch_sync accept
    resolve_unfiltered filtered server_resolve heartbeat resolve_file validate_git_url
    validate_git_ref git_aliases_path git_then os_then update_checkout reset_checkout fetch_or_clone
    commit_of checkout_fetched_at read_checkout git_resolve store_error parse_sync_platform
    parse_sync_shell sync_resolve sync_response reported sync_device handle_sync sync_route flat_map
served_stale = refl

git_resolve-ok_example :
    (had : Bool) × (git.is_dir (git.join repository.cache_dir (codes ".git")) [] ≡ ok had)
    × (((stale_info.stale ≡ false) × ((fetch_or_clone git repository had []).0 ≡ none))
        ⊎ ((stale_info.stale ≡ true)
            × (had ≡ true)
            × ((x : GitError) × ((fetch_or_clone git repository had []).0 ≡ some x))))
    × IsRead same_text same_rune decode_yaml disk git repository laptop nothing
        (fetch_or_clone git repository had []).1
        log_after
git_resolve-ok_example =
    git_resolve-ok same_text same_rune decode_yaml disk git repository laptop [] nothing stale_info
      log_after served_stale
