-- ===== src/Tests/AuthRuns.antt =====
-- The theorems on requests, passwords and setup, at concrete inputs.
use aliasdeck.Prelude.{ℕ, ◌+◌, ◌≤◌, ◌≡◌, refl, ◌↔◌, true, [], ◌∷◌, ◌++◌, Option, none, some, arith}
use aliasdeck.Prelude.{ok}
use mathlib.Core.List.{flat_map}
use aliasdeck.Text.{
  same, contains_text, text_leb, cut_prefix, has_prefix, trim_prefix, has_suffix, trim_suffix, cut,
  index, contains, replace_first, replace_from, replace_all, split, join, is_blank, trim_left_blank,
  index_where, to_lower_byte,
}
use aliasdeck.Utf8.{
  continues, second, two_bytes, three_bytes, four_bytes, decode_rune, decode_from, runes,
  count_runes, encode_rune, is_space, is_control, space_rune, trim_runes, trim_space,
}
use aliasdeck.Auth.Token.{
  token_prefix, kind_byte, byte_kind, wire_text, mint, parse_fields, parse_kind, parse,
  verify_secret, verify, consume_enrollment,
}
use aliasdeck.Auth.Middleware.{bearer_token, admit, require_kind}
use aliasdeck.Auth.Password.{
  validate_password_strength, is_bounded, decode_field, read_hash, verify_password, try_acquire,
  release,
}
use aliasdeck.Auth.Reset.{
  update_error, replace_hash, reset_password, write_bootstrap_password_file,
  deliver_generated_password, create_admin, bootstrap_generated, bootstrap,
}
use aliasdeck.Auth.Setup.{
  create_error, rename_error, consume_credential, check_form, check_credential, create_first,
  locked_setup, complete_setup,
}
use aliasdeck.Store.Tokens.{
  find_token, by_lookup, is_consumable, consume_rows, has_device, device_row, insert_device,
  has_membership, insert_memberships, write_enrollment, with_id, consume_enrollment_row,
  revoke_rows, revoke, revoke_subject_rows, revoke_subject, token_clashes, create_token,
}
use aliasdeck.Store.Operators.{
  find_operator, clashes, create_operator, update_password_rows, update_password_hash,
}
use aliasdeck.Store.Accounts.{on_operators, table_accounts}
use aliasdeck.Api.Errors.{store_error}
use aliasdeck.Api.Session.{open_session, handle_login, handle_logout}
use aliasdeck.Watch.{validate_interval, parse_interval}
use aliasdeck.Text.{Bytes, codes}
use aliasdeck.Auth.Token.{Token, token_kind_session}
use aliasdeck.Auth.Middleware.{Subject}
use aliasdeck.Auth.MiddlewareLaws.{IsAdmitted, require_kind_iff}
use aliasdeck.Auth.ResetLaws.{IsLoggedOut, reset_password-IsLoggedOut}
use aliasdeck.Auth.Setup.{SetupFiles, SetupForm}
use aliasdeck.Auth.SetupLaws.{HasCredential, IsFilled, IsFirst, complete_setup-IsFirst}
use aliasdeck.Store.Operators.{Operator}
use aliasdeck.Store.Accounts.{Tables}
use aliasdeck.Text.Search.{Lacks}
use aliasdeck.Auth.Password.{Crypto}
use aliasdeck.Auth.Middleware.{bearer_prefix}
use aliasdeck.Api.Session.{session_lifetime, LoginResponse}
use aliasdeck.Api.SessionLaws.{handle_login-require_kind}
use aliasdeck.Watch.{min_interval, max_interval, parse_interval-bounds}

-- A stand-in for SHA-256.
abbrev same_text : Bytes → Bytes
same_text s = s

abbrev session : Token
session = record {
  id = codes "t1";
  lookup = codes "abc";
  kind = token_kind_session;
  subject_id = codes "o1";
  secret_hash = codes "secret";
  profile_ids = [];
  created_at = 1;
  expires_at = 0;
  used_at = 0;
  revoked_at = 0;
}

abbrev admin : Operator
admin = record {
  id = codes "o1";
  username = codes "admin";
  password_hash = codes "old";
  created_at = 1;
  updated_at = 1;
}

abbrev tables : Tables
tables = record {
  operators = admin ∷ [];
  db = record { tokens = session ∷ []; devices = []; profiles = []; memberships = [] };
}

abbrev header : Bytes
header = codes "Bearer ads_abc.secret"

abbrev admin_subject : Subject
admin_subject = record { token_id = codes "t1"; kind = token_kind_session; subject_id = codes "o1" }

passes :
    require_kind same_text (by_lookup tables.db) token_kind_session 5 header ≡ some admin_subject
unfolding same contains_text text_leb cut_prefix has_prefix trim_prefix has_suffix trim_suffix cut
    index contains replace_first replace_from replace_all split join is_blank trim_left_blank
    index_where to_lower_byte continues second two_bytes three_bytes four_bytes decode_rune
    decode_from runes count_runes encode_rune is_space is_control space_rune trim_runes trim_space
    token_prefix kind_byte byte_kind wire_text mint parse_fields parse_kind parse verify_secret
    verify consume_enrollment bearer_token admit require_kind validate_password_strength is_bounded
    decode_field read_hash verify_password try_acquire release update_error replace_hash
    reset_password write_bootstrap_password_file deliver_generated_password create_admin
    bootstrap_generated bootstrap create_error rename_error consume_credential check_form
    check_credential create_first locked_setup complete_setup find_token by_lookup is_consumable
    consume_rows has_device device_row insert_device has_membership insert_memberships
    write_enrollment with_id consume_enrollment_row revoke_rows revoke revoke_subject_rows
    revoke_subject token_clashes create_token find_operator clashes create_operator
    update_password_rows update_password_hash on_operators table_accounts store_error open_session
    handle_login handle_logout validate_interval parse_interval flat_map
passes = refl

require_kind_iff_example :
    (require_kind same_text (by_lookup tables.db) token_kind_session 5 header ≡ some admin_subject)
    ↔ IsAdmitted same_text (by_lookup tables.db) token_kind_session 5 header admin_subject
require_kind_iff_example =
    require_kind_iff same_text (by_lookup tables.db) token_kind_session 5 header admin_subject

abbrev hash_password : Bytes → Option Bytes
hash_password s = some s

abbrev password : Bytes
password = codes "correct horse"

abbrev admin_after : Operator
admin_after = record admin { password_hash = password; updated_at = 9 }

abbrev tables_after : Tables
tables_after = record {
  operators = admin_after ∷ [];
  db = record {
    tokens = record session { revoked_at = 9 } ∷ [];
    devices = [];
    profiles = [];
    memberships = [];
  };
}

reset :
    reset_password hash_password (table_accounts [] 9) 9 (codes "admin") password tables
    ≡ (none, tables_after)
unfolding same contains_text text_leb cut_prefix has_prefix trim_prefix has_suffix trim_suffix cut
    index contains replace_first replace_from replace_all split join is_blank trim_left_blank
    index_where to_lower_byte continues second two_bytes three_bytes four_bytes decode_rune
    decode_from runes count_runes encode_rune is_space is_control space_rune trim_runes trim_space
    token_prefix kind_byte byte_kind wire_text mint parse_fields parse_kind parse verify_secret
    verify consume_enrollment bearer_token admit require_kind validate_password_strength is_bounded
    decode_field read_hash verify_password try_acquire release update_error replace_hash
    reset_password write_bootstrap_password_file deliver_generated_password create_admin
    bootstrap_generated bootstrap create_error rename_error consume_credential check_form
    check_credential create_first locked_setup complete_setup find_token by_lookup is_consumable
    consume_rows has_device device_row insert_device has_membership insert_memberships
    write_enrollment with_id consume_enrollment_row revoke_rows revoke revoke_subject_rows
    revoke_subject token_clashes create_token find_operator clashes create_operator
    update_password_rows update_password_hash on_operators table_accounts store_error open_session
    handle_login handle_logout validate_interval parse_interval flat_map
reset = refl

reset_password-IsLoggedOut_example :
    (o : Operator) × (validate_password_strength password ≡ none)
    × (find_operator (codes "admin") tables_after.operators ≡ some o)
    × (hash_password password ≡ some o.password_hash)
    × IsLoggedOut same_text o.id tables_after.db
reset_password-IsLoggedOut_example =
    reset_password-IsLoggedOut same_text hash_password [] 9 (codes "admin") password tables
      tables_after (omega arith) reset

-- A machine with a credential file, on the operators.
abbrev files : SetupFiles Tables
files = record {
  exists = λ path w. true;
  create_new = λ path w. (ok tt, w);
  read_file = λ path w. ok (codes "token");
  rename = λ old new w. (ok tt, w);
  remove = λ path w. w;
}

abbrev no_tables : Tables
no_tables = record {
  operators = [];
  db = record { tokens = []; devices = []; profiles = []; memberships = [] };
}

abbrev form : SetupForm
form = record { username = codes "root"; password = password; confirmation = password }

abbrev root : Operator
root = record {
  id = codes "o9";
  username = codes "root";
  password_hash = password;
  created_at = 9;
  updated_at = 9;
}

abbrev one_operator : Tables
one_operator = record no_tables { operators = root ∷ [] }

set_up :
    complete_setup same_text hash_password files
      (table_accounts (codes "o9") 9)
      (codes "/c")
      (some (codes "token"))
      form
      no_tables
    ≡ (none, one_operator)
unfolding same contains_text text_leb cut_prefix has_prefix trim_prefix has_suffix trim_suffix cut
    index contains replace_first replace_from replace_all split join is_blank trim_left_blank
    index_where to_lower_byte continues second two_bytes three_bytes four_bytes decode_rune
    decode_from runes count_runes encode_rune is_space is_control space_rune trim_runes trim_space
    token_prefix kind_byte byte_kind wire_text mint parse_fields parse_kind parse verify_secret
    verify consume_enrollment bearer_token admit require_kind validate_password_strength is_bounded
    decode_field read_hash verify_password try_acquire release update_error replace_hash
    reset_password write_bootstrap_password_file deliver_generated_password create_admin
    bootstrap_generated bootstrap create_error rename_error consume_credential check_form
    check_credential create_first locked_setup complete_setup find_token by_lookup is_consumable
    consume_rows has_device device_row insert_device has_membership insert_memberships
    write_enrollment with_id consume_enrollment_row revoke_rows revoke revoke_subject_rows
    revoke_subject token_clashes create_token find_operator clashes create_operator
    update_password_rows update_password_hash on_operators table_accounts store_error open_session
    handle_login handle_logout validate_interval parse_interval flat_map
set_up = refl

complete_setup-IsFirst_example :
    (w1 : Tables) × (w2 : Tables) × (files.exists (codes "/c") no_tables ≡ true)
    × (files.create_new (codes "/c" ++ codes ".lock") no_tables ≡ (ok tt, w1))
    × HasCredential same_text files (codes "/c") (codes "token") w1
    × IsFilled form
    × IsFirst hash_password files (table_accounts (codes "o9") 9) (codes "/c") form w1 w2
    × (one_operator ≡ files.remove (codes "/c" ++ codes ".lock") w2)
complete_setup-IsFirst_example =
    complete_setup-IsFirst same_text hash_password files (table_accounts (codes "o9") 9)
      (codes "/c") (codes "token") form no_tables one_operator set_up

abbrev five_seconds : Bytes → Option ℕ
five_seconds raw = some 5000000000

parsed : parse_interval five_seconds (codes "5s") ≡ some 5000000000
unfolding parse_interval validate_interval
parsed = refl

parse_interval-bounds_example : (min_interval ≤ 5000000000) × (5000000000 ≤ max_interval)
parse_interval-bounds_example = parse_interval-bounds five_seconds (codes "5s") 5000000000 parsed

abbrev crypto : Crypto
crypto = record {
  scan_version = λ s. some 19;
  scan_cost = λ s. some (record { memory = 65536; time = 1; threads = 4 });
  decode_base64 = λ s. some s;
  id_key = λ pw salt cost n. pw;
}

abbrev root_hashed : Operator
root_hashed = record root {
  password_hash = codes "argon2id$v=19$m=65536,t=1,p=4$salt$correct horse";
}

abbrev closed : Tables
closed = record no_tables { operators = root_hashed ∷ [] }

abbrev logged_in : Tables
logged_in = record {
  operators = root_hashed ∷ [];
  db = record {
    tokens =
        record {
          id = codes "t9";
          lookup = codes "look";
          kind = token_kind_session;
          subject_id = codes "o9";
          secret_hash = codes "sesame";
          profile_ids = [];
          created_at = 7;
          expires_at = 7 + session_lifetime;
          used_at = 0;
          revoked_at = 0;
        }
        ∷ [];
    devices = [];
    profiles = [];
    memberships = [];
  };
}

abbrev opened : LoginResponse
opened = record { token = codes "ads_look.sesame"; expires_at = 7 + session_lifetime }

login :
    handle_login crypto same_text
      (record { fresh = codes "t9"; lookup = some (codes "look"); secret = some (codes "sesame") })
      7
      0
      (codes "root")
      password
      closed
    ≡ (ok opened, logged_in)
unfolding same contains_text text_leb cut_prefix has_prefix trim_prefix has_suffix trim_suffix cut
    index contains replace_first replace_from replace_all split join is_blank trim_left_blank
    index_where to_lower_byte continues second two_bytes three_bytes four_bytes decode_rune
    decode_from runes count_runes encode_rune is_space is_control space_rune trim_runes trim_space
    token_prefix kind_byte byte_kind wire_text mint parse_fields parse_kind parse verify_secret
    verify consume_enrollment bearer_token admit require_kind validate_password_strength is_bounded
    decode_field read_hash verify_password try_acquire release update_error replace_hash
    reset_password write_bootstrap_password_file deliver_generated_password create_admin
    bootstrap_generated bootstrap create_error rename_error consume_credential check_form
    check_credential create_first locked_setup complete_setup find_token by_lookup is_consumable
    consume_rows has_device device_row insert_device has_membership insert_memberships
    write_enrollment with_id consume_enrollment_row revoke_rows revoke revoke_subject_rows
    revoke_subject token_clashes create_token find_operator clashes create_operator
    update_password_rows update_password_hash on_operators table_accounts store_error open_session
    handle_login handle_logout validate_interval parse_interval flat_map
login = refl

no_dot : Lacks b'.' (codes "look")
no_dot = (λ e. cc e, (λ e. cc e, (λ e. cc e, (λ e. cc e, tt))))

handle_login-require_kind_example :
    (op : Operator) × (subj : Subject) × (find_operator (codes "root") closed.operators ≡ some op)
    × (verify_password crypto password op.password_hash ≡ none)
    × (require_kind same_text
          (by_lookup logged_in.db)
          token_kind_session
          8
          (bearer_prefix ++ opened.token)
        ≡ some subj)
    × (subj.subject_id ≡ op.id)
handle_login-require_kind_example =
    handle_login-require_kind crypto same_text (codes "t9") (codes "look") (codes "sesame") 7 0
      (codes "root") password closed opened logged_in 8 login no_dot refl refl (omega arith)
