-- ===== src/Tests/RegisterRuns.antt =====
-- The creation of an enrollment token and the registration of a device, at concrete inputs.
use aliasdeck.Prelude.{◌+◌, ◌≡◌, refl, [], ◌∷◌, ◌++◌, some, arith}
use aliasdeck.Prelude.{ok}
use aliasdeck.Text.{
  same, contains_text, text_leb, cut_prefix, has_prefix, trim_prefix, has_suffix, trim_suffix, cut,
  index, contains, replace_first, replace_from, replace_all, split, join, is_blank, trim_left_blank,
  index_where, to_lower_byte,
}
use aliasdeck.Utf8.{
  continues, second, two_bytes, three_bytes, four_bytes, decode_rune, decode_from, runes,
  count_runes, encode_rune, is_space, is_control, space_rune, trim_runes, trim_space,
}
use aliasdeck.Domain.Shell.{
  platform_valid, parse_platform, shell_valid, is_posix, parse_shell, default_shell_for,
}
use aliasdeck.Auth.Token.{
  token_prefix, kind_byte, byte_kind, wire_text, mint, parse_fields, parse_kind, parse,
  verify_secret, verify, consume_enrollment,
}
use aliasdeck.Auth.Middleware.{bearer_token, admit, require_kind}
use aliasdeck.Store.Tokens.{
  find_token, by_lookup, is_consumable, consume_rows, has_device, device_row, insert_device,
  has_membership, insert_memberships, write_enrollment, with_id, consume_enrollment_row,
  revoke_rows, revoke, revoke_subject_rows, revoke_subject, token_clashes, create_token,
}
use aliasdeck.Api.Errors.{store_error}
use aliasdeck.Api.Session.{open_session, handle_login, handle_logout}
use aliasdeck.Api.Register.{
  of_store, table_tokens, register_error, new_device, issue_token, register_with, handle_register,
}
use aliasdeck.Api.Enrollment.{enrollment_expiry, handle_enrollment}
use mathlib.Core.List.{flat_map}
use aliasdeck.Prelude.{◌*◌}
use aliasdeck.Watch.{one_second}
use aliasdeck.Prelude.{ltb}
use aliasdeck.Text.{Bytes, codes}
use aliasdeck.Text.Search.{Lacks}
use aliasdeck.Domain.Alias.{Device}
use aliasdeck.Auth.Token.{Token, ParsedToken, token_kind_enrollment, token_kind_device}
use aliasdeck.Auth.TokenLaws.{IsWire}
use aliasdeck.Auth.Middleware.{Subject, bearer_prefix}
use aliasdeck.Store.Tokens.{Database}
use aliasdeck.Api.Enrollment.{EnrollmentTokenRequest, EnrollmentTokenResponse, handle_enrollment}
use aliasdeck.Api.EnrollmentLaws.{handle_enrollment-consume_enrollment}
use aliasdeck.Api.Register.{RegisterRequest, DeviceTokenResponse}
use aliasdeck.Api.RegisterLaws.{register_with-require_kind}

-- A stand-in for SHA-256.
abbrev same_text : Bytes → Bytes
same_text s = s

abbrev invitation : Token
invitation = record {
  id = codes "t1";
  lookup = codes "abc";
  kind = token_kind_enrollment;
  subject_id = [];
  secret_hash = codes "hush";
  profile_ids = codes "work" ∷ [];
  created_at = 1;
  expires_at = 0;
  used_at = 0;
  revoked_at = 0;
}

abbrev before : Database
before = record {
  tokens = invitation ∷ [];
  devices = [];
  profiles = codes "work" ∷ [];
  memberships = [];
}

abbrev input : RegisterRequest
input = record {
  name = codes "laptop";
  platform = codes "macos";
  shell = codes "zsh";
  client_version = codes "1.0";
}

abbrev issued : Token
issued = record {
  id = codes "t2";
  lookup = codes "look";
  kind = token_kind_device;
  subject_id = codes "d1";
  secret_hash = codes "sesame";
  profile_ids = [];
  created_at = 5;
  expires_at = 0;
  used_at = 0;
  revoked_at = 0;
}

abbrev after : Database
after = record {
  tokens = record invitation { used_at = 5; subject_id = codes "d1" } ∷ issued ∷ [];
  devices = record (new_device input) { id = codes "d1" } ∷ [];
  profiles = codes "work" ∷ [];
  memberships = (codes "d1", codes "work") ∷ [];
}

abbrev answered : DeviceTokenResponse
answered = record { device_id = codes "d1"; device_token = codes "add_look.sesame" }

registered :
    register_with same_text
      (codes "d1")
      (record { fresh = codes "t2"; lookup = some (codes "look"); secret = some (codes "sesame") })
      5
      input
      (codes "ade_abc.hush")
      before
    ≡ (ok answered, after)
unfolding same contains_text text_leb cut_prefix has_prefix trim_prefix has_suffix trim_suffix cut
    index contains replace_first replace_from replace_all split join is_blank trim_left_blank
    index_where to_lower_byte continues second two_bytes three_bytes four_bytes decode_rune
    decode_from runes count_runes encode_rune is_space is_control space_rune trim_runes trim_space
    platform_valid parse_platform shell_valid is_posix parse_shell default_shell_for token_prefix
    kind_byte byte_kind wire_text mint parse_fields parse_kind parse verify_secret verify
    consume_enrollment bearer_token admit require_kind find_token by_lookup is_consumable
    consume_rows has_device device_row insert_device has_membership insert_memberships
    write_enrollment with_id consume_enrollment_row revoke_rows revoke revoke_subject_rows
    revoke_subject token_clashes create_token store_error open_session handle_login handle_logout
    of_store table_tokens register_error new_device issue_token register_with handle_register
    enrollment_expiry handle_enrollment flat_map
registered = refl

no_dot : Lacks b'.' (codes "look")
no_dot = (λ e. cc e, (λ e. cc e, (λ e. cc e, (λ e. cc e, tt))))

register_with-require_kind_example :
    (t : ParsedToken) × (dev : Device) × (between : Database) × (subj : Subject) × IsWire
      (codes "ade_abc.hush")
      t
    × (consume_enrollment_row (codes "d1") t.lookup (new_device input) 5 before ≡ (ok dev, between))
    × (require_kind same_text
          (by_lookup after)
          token_kind_device
          99
          (bearer_prefix ++ answered.device_token)
        ≡ some subj)
    × (subj.subject_id ≡ dev.id)
    × (answered.device_id ≡ dev.id)
register_with-require_kind_example =
    register_with-require_kind same_text (codes "d1") (codes "t2") (codes "look") (codes "sesame") 5
      input (codes "ade_abc.hush") before answered after 99 registered no_dot refl refl

abbrev asked : EnrollmentTokenRequest
asked = record { profile_ids = codes "work" ∷ []; ttl_seconds = 60 }

abbrev empty : Database
empty = record { tokens = []; devices = []; profiles = codes "work" ∷ []; memberships = [] }

abbrev invited : Database
invited = record empty {
  tokens =
      record {
        id = codes "t3";
        lookup = codes "look";
        kind = token_kind_enrollment;
        subject_id = [];
        secret_hash = codes "sesame";
        profile_ids = codes "work" ∷ [];
        created_at = 7;
        expires_at = 60000000007;
        used_at = 0;
        revoked_at = 0;
      }
      ∷ [];
}

abbrev invite : EnrollmentTokenResponse
invite = record { token = codes "ade_look.sesame"; expires_at = 60000000007 }

created :
    handle_enrollment same_text
      (record { fresh = codes "t3"; lookup = some (codes "look"); secret = some (codes "sesame") })
      7
      asked
      empty
    ≡ (ok invite, invited)
unfolding same contains_text text_leb cut_prefix has_prefix trim_prefix has_suffix trim_suffix cut
    index contains replace_first replace_from replace_all split join is_blank trim_left_blank
    index_where to_lower_byte continues second two_bytes three_bytes four_bytes decode_rune
    decode_from runes count_runes encode_rune is_space is_control space_rune trim_runes trim_space
    platform_valid parse_platform shell_valid is_posix parse_shell default_shell_for token_prefix
    kind_byte byte_kind wire_text mint parse_fields parse_kind parse verify_secret verify
    consume_enrollment bearer_token admit require_kind find_token by_lookup is_consumable
    consume_rows has_device device_row insert_device has_membership insert_memberships
    write_enrollment with_id consume_enrollment_row revoke_rows revoke revoke_subject_rows
    revoke_subject token_clashes create_token store_error open_session handle_login handle_logout
    of_store table_tokens register_error new_device issue_token register_with handle_register
    enrollment_expiry handle_enrollment flat_map
created = refl

handle_enrollment-consume_enrollment_example :
    (tok : Token) × (invite.expires_at ≡ 7 + 60 * one_second)
    × (by_lookup invited (codes "look") ≡ ok tok)
    × (tok.expires_at ≡ invite.expires_at)
    × (tok.profile_ids ≡ asked.profile_ids)
    × (is_consumable (codes "look") 9 tok ≡ ltb 9 (7 + 60 * one_second))
    × (consume_enrollment same_text
          (table_tokens (codes "d1") 9)
          invite.token
          (new_device input)
          invited
        ≡ (let (made, db) =
              consume_enrollment_row (codes "d1") (codes "look") (new_device input) 9 invited in
            (of_store made, db)))
handle_enrollment-consume_enrollment_example =
    handle_enrollment-consume_enrollment same_text (codes "t3") (codes "look") (codes "sesame") 7
      asked empty invite invited (codes "d1") (new_device input) 9 created no_dot refl refl
      (omega arith) (omega arith)
