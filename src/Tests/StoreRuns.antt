-- ===== src/Tests/StoreRuns.antt =====
-- The theorems on the store and on the API's aliases, at concrete inputs.
use aliasdeck.Prelude.{◌≤◌, ◌≡◌, refl, inl, true, [], ◌∷◌, none, some, length, arith}
use aliasdeck.Prelude.{ok, err}
use aliasdeck.Text.{
  same, contains_text, text_leb, cut_prefix, has_prefix, trim_prefix, has_suffix, trim_suffix, cut,
  index, contains, replace_first, replace_from, replace_all, split, join, is_blank, trim_left_blank,
  index_where, to_lower_byte,
}
use aliasdeck.Store.Tokens.{
  find_token, by_lookup, is_consumable, consume_rows, has_device, device_row, insert_device,
  has_membership, insert_memberships, write_enrollment, with_id, consume_enrollment_row,
  revoke_rows, revoke, revoke_subject_rows, revoke_subject,
}
use aliasdeck.Store.Aliases.{
  insert_id, linked_ids, clear_links, set_alias_profiles, set_alias_devices, to_domain_alias,
  write_links, commit, new_row, row_clashes, insert_row, create, create_within_limit, find_row, get,
  insert_by_name, order_by_name, list_all, updated_row, update_rows, name_taken, update, delete,
}
use aliasdeck.Api.Aliases.{
  validate_alias_write, create_status, handle_create, handle_update, handle_delete, serve,
  serve_all,
}
use aliasdeck.Text.{Bytes, codes}
use aliasdeck.Domain.Alias.{Alias, Device}
use aliasdeck.Auth.Token.{Token, token_kind_enrollment}
use aliasdeck.Store.Errors.{conflict}
use aliasdeck.Store.Tokens.{Database}
use aliasdeck.Store.TokensLaws.{rows_with, consume_enrollment_row-again}
use aliasdeck.Store.Enrollment.{Race, Reach, reads, wins, here, next, winners-Reach}
use aliasdeck.Store.Aliases.{Catalog}
use aliasdeck.Prelude.{In, ◌↔◌}
use aliasdeck.Store.AliasesLaws.{IsKeyed}
use aliasdeck.Validate.Issues.{max_aliases}
use aliasdeck.Api.Aliases.{create_alias, update_alias, delete_alias}
use aliasdeck.Api.AliasesLaws.{serve_all-IsCatalog, get-create}

abbrev invitation : Token
invitation = record {
  id = codes "t1";
  lookup = codes "abc";
  kind = token_kind_enrollment;
  subject_id = [];
  secret_hash = codes "hash";
  profile_ids = codes "work" ∷ [];
  created_at = 1;
  expires_at = 0;
  used_at = 0;
  revoked_at = 0;
}

abbrev laptop : Device
laptop = record {
  id = codes "d1";
  name = codes "laptop";
  hostname = [];
  platform = codes "macos";
  shell = codes "zsh";
  architecture = [];
  profile_ids = [];
  last_seen_at = none;
  last_sync_at = none;
  client_version = [];
  revoked_at = none;
}

abbrev desk : Device
desk = record laptop { id = codes "d2" }

abbrev before : Database
before = record {
  tokens = invitation ∷ [];
  devices = [];
  profiles = codes "work" ∷ [];
  memberships = [];
}

abbrev after : Database
after = record {
  tokens = record invitation { used_at = 5; subject_id = codes "d1" } ∷ [];
  devices = laptop ∷ [];
  profiles = codes "work" ∷ [];
  memberships = (codes "d1", codes "work") ∷ [];
}

abbrev enrolled : Device
enrolled = record laptop { profile_ids = codes "work" ∷ [] }

first_use : consume_enrollment_row [] (codes "abc") laptop 5 before ≡ (ok enrolled, after)
unfolding same contains_text text_leb cut_prefix has_prefix trim_prefix has_suffix trim_suffix cut
    index contains replace_first replace_from replace_all split join is_blank trim_left_blank
    index_where to_lower_byte find_token by_lookup is_consumable consume_rows has_device device_row
    insert_device has_membership insert_memberships write_enrollment with_id consume_enrollment_row
    revoke_rows revoke revoke_subject_rows revoke_subject insert_id linked_ids clear_links
    set_alias_profiles set_alias_devices to_domain_alias write_links commit new_row row_clashes
    insert_row create create_within_limit find_row get insert_by_name order_by_name list_all
    updated_row update_rows name_taken update delete validate_alias_write create_status
    handle_create handle_update handle_delete serve serve_all
first_use = refl

one_row : rows_with (codes "abc") before.tokens ≤ 1
unfolding same
one_row = omega arith

consume_enrollment_row-again_example :
    consume_enrollment_row [] (codes "abc") desk 6 after ≡ (err conflict, after)
consume_enrollment_row-again_example =
    consume_enrollment_row-again [] (codes "abc") laptop enrolled 5 before after one_row
      (omega arith) first_use [] desk 6 (omega arith)

abbrev start : Race
start = record { db = before; pending = []; winners = 0 }

abbrev has_read : Race
has_read = record { db = before; pending = invitation ∷ []; winners = 0 }

abbrev has_won : Race
has_won = record { db = after; pending = invitation ∷ []; winners = 1 }

found : find_token (codes "abc") before.tokens ≡ some invitation
unfolding same contains_text text_leb cut_prefix has_prefix trim_prefix has_suffix trim_suffix cut
    index contains replace_first replace_from replace_all split join is_blank trim_left_blank
    index_where to_lower_byte find_token by_lookup is_consumable consume_rows has_device device_row
    insert_device has_membership insert_memberships write_enrollment with_id consume_enrollment_row
    revoke_rows revoke revoke_subject_rows revoke_subject insert_id linked_ids clear_links
    set_alias_profiles set_alias_devices to_domain_alias write_links commit new_row row_clashes
    insert_row create create_within_limit find_row get insert_by_name order_by_name list_all
    updated_row update_rows name_taken update delete validate_alias_write create_status
    handle_create handle_update handle_delete serve serve_all
found = refl

written : write_enrollment (codes "abc") invitation laptop 5 before ≡ (ok enrolled, after)
unfolding same contains_text text_leb cut_prefix has_prefix trim_prefix has_suffix trim_suffix cut
    index contains replace_first replace_from replace_all split join is_blank trim_left_blank
    index_where to_lower_byte find_token by_lookup is_consumable consume_rows has_device device_row
    insert_device has_membership insert_memberships write_enrollment with_id consume_enrollment_row
    revoke_rows revoke revoke_subject_rows revoke_subject insert_id linked_ids clear_links
    set_alias_profiles set_alias_devices to_domain_alias write_links commit new_row row_clashes
    insert_row create create_within_limit find_row get insert_by_name order_by_name list_all
    updated_row update_rows name_taken update delete validate_alias_write create_status
    handle_create handle_update handle_delete serve serve_all
written = refl

race : Reach (codes "abc") start has_won
race =
    next {s = has_read} (next {s = start} here (reads invitation found refl))
      (wins invitation laptop enrolled 5 after (inl refl) (omega arith) written refl)

winners-Reach_example : has_won.winners ≤ 1
winners-Reach_example = winners-Reach (codes "abc") before has_won one_row race

abbrev gs : Alias
gs = record {
  id = codes "a1";
  name = codes "gs";
  command = codes "git status";
  description = [];
  enabled = true;
  tags = [];
  platforms = [];
  shells = [];
  profile_ids = codes "work" ∷ [];
  device_ids = [];
  created_at = 0;
  updated_at = 0;
}

abbrev no_aliases : Catalog
no_aliases = record {
  rows = [];
  profile_links = [];
  device_links = [];
  profiles = codes "work" ∷ [];
  devices = [];
}

abbrev one_alias : Catalog
one_alias = record {
  rows = record gs { profile_ids = []; created_at = 7; updated_at = 7 } ∷ [];
  profile_links = (codes "a1", codes "work") ∷ [];
  device_links = [];
  profiles = codes "work" ∷ [];
  devices = [];
}

abbrev gs_kept : Alias
gs_kept = record gs { created_at = 7; updated_at = 7 }

created : create [] 7 gs 0 no_aliases ≡ (ok gs_kept, one_alias)
unfolding same contains_text text_leb cut_prefix has_prefix trim_prefix has_suffix trim_suffix cut
    index contains replace_first replace_from replace_all split join is_blank trim_left_blank
    index_where to_lower_byte find_token by_lookup is_consumable consume_rows has_device device_row
    insert_device has_membership insert_memberships write_enrollment with_id consume_enrollment_row
    revoke_rows revoke revoke_subject_rows revoke_subject insert_id linked_ids clear_links
    set_alias_profiles set_alias_devices to_domain_alias write_links commit new_row row_clashes
    insert_row create create_within_limit find_row get insert_by_name order_by_name list_all
    updated_row update_rows name_taken update delete validate_alias_write create_status
    handle_create handle_update handle_delete serve serve_all
created = refl

get-create_example :
    (get (codes "a1") one_alias ≡ ok gs_kept)
    × (gs_kept.name ≡ gs.name)
    × (gs_kept.command ≡ gs.command)
    × (gs_kept.description ≡ gs.description)
    × (gs_kept.enabled ≡ gs.enabled)
    × (gs_kept.platforms ≡ gs.platforms)
    × (gs_kept.shells ≡ gs.shells)
    × (gs_kept.tags ≡ gs.tags)
    × ((q : Bytes) → In q gs_kept.profile_ids ↔ In q gs.profile_ids)
    × ((q : Bytes) → In q gs_kept.device_ids ↔ In q gs.device_ids)
get-create_example = get-create [] 7 gs gs_kept 0 no_aliases one_alias created

no_keys : IsKeyed no_aliases.rows
no_keys = record { ids = λ id. omega arith; names = λ n. omega arith }

serve_all-IsCatalog_example :
    IsKeyed
      (serve_all
        (create_alias [] 7 gs ∷ update_alias 8 (codes "a1") gs ∷ delete_alias (codes "a1") ∷ [])
        no_aliases).rows
    × (length
          (serve_all
            (create_alias [] 7 gs ∷ update_alias 8 (codes "a1") gs ∷ delete_alias (codes "a1") ∷ [])
            no_aliases).rows
        ≤ max_aliases)
serve_all-IsCatalog_example =
    serve_all-IsCatalog
      (create_alias [] 7 gs ∷ update_alias 8 (codes "a1") gs ∷ delete_alias (codes "a1") ∷ [])
      no_aliases (no_keys, omega arith)
