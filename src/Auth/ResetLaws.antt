-- ===== src/Auth/ResetLaws.antt =====
-- What `ResetPassword` and `Bootstrap` leave behind, and that a session dies with its operator's password.
use aliasdeck.Prelude.{
  ℕ, ◌<◌, ◌≡◌, ◌≢◌, sym, ap, ◌∙◌, inl, inr, Option, none, some, is_empty, Bool-cases, Option-cases,
  arith,
}
use aliasdeck.Prelude.{ok}
use mathlib.Core.Path.{subst}
use aliasdeck.Text.{Bytes}
use aliasdeck.Text.Equality.{same_iff}
use aliasdeck.Utf8.{trim_space}
use aliasdeck.Auth.Token.{Token, TokenKind, token_kind_session}
use aliasdeck.Auth.Middleware.{Subject, require_kind}
use aliasdeck.Auth.MiddlewareLaws.{require_kind_iff}
use aliasdeck.Auth.Password.{validate_password_strength}
use aliasdeck.Auth.Reset.{replace_hash, reset_password}
use aliasdeck.Domain.Alias.{Time}
use aliasdeck.Store.Operators.{
  Operator, find_operator, update_password_rows, update_password_hash,
  find_operator-update_password_rows,
}
use aliasdeck.Store.Tokens.{Database, by_lookup, find_token, revoke_subject}
use aliasdeck.Store.Revoked.{find_token-revoke_subject_rows}
use aliasdeck.Store.Accounts.{Accounts, Tables, on_operators, table_accounts}

-- No request passes with a session of the subject.
abbrev pub IsLoggedOut : (Bytes → Bytes) → Bytes → Database → Type 0
IsLoggedOut hash_secret subject db =
    (now : ℕ) (header : Bytes)
    → ¬ (
        (subj : Subject) × (require_kind hash_secret (by_lookup db) token_kind_session now header
          ≡ some subj)
        × (subj.subject_id ≡ subject))

by_lookup-find_token :
    (db : Database) (lookup : Bytes) (tok : Token)
    → by_lookup db lookup ≡ ok tok
    → find_token lookup db.tokens ≡ some tok
unfolding by_lookup
by_lookup-find_token db lookup tok h = elim (Option-cases (find_token lookup db.tokens)) [
  | inl e ↦ ground (arith, e)
  | inr (t, e) ↦ ground (arith, e)
]

-- After `RevokeSubject`, at a time that is not the zero time, `RequireKind` refuses every request that
-- carries a token of that kind for that subject.
pub revoke_subject-require_kind :
    (hash_secret : Bytes → Bytes) (kind : TokenKind) (subject : Bytes) (at_time : Time)
    (db : Database) (now : ℕ) (header : Bytes) (subj : Subject)
    → 0 < at_time
    → require_kind hash_secret (by_lookup (revoke_subject kind subject at_time db)) kind now header
      ≡ some subj
    → subj.subject_id ≢ subject
unfolding revoke_subject
revoke_subject-require_kind hash_secret kind subject at_time db now header subj p h owned =
    let a =
      (require_kind_iff hash_secret (by_lookup (revoke_subject kind subject at_time db)) kind now
          header subj).0
        h in
    let (_, k, r, _) = a.current in
    let gone =
      find_token-revoke_subject_rows a.parsed.lookup kind subject at_time db.tokens a.tok p (
        by_lookup-find_token (revoke_subject kind subject at_time db) a.parsed.lookup a.tok
          a.found) in
    let of_kind = (same_iff a.tok.kind kind).1 k in
    let of_subject =
      (same_iff a.tok.subject_id subject).1 (ap (λ s. s.subject_id) a.named ∙ owned) in
    ground (arith, gone, of_kind, of_subject, r)

-- What a successful reset did to the tables.
pub record IsReset (hash username : Bytes) (now : Time) (w w' : Tables) : Type 0 where
  pub operator : Operator
  pub found : find_operator username w'.operators ≡ some operator
  pub replaced : operator.password_hash ≡ hash
  pub revoked : w'.db ≡ revoke_subject token_kind_session operator.id now w.db

replace_hash-IsReset :
    (fresh : Bytes) (now : Time) (username hash : Bytes) (w w' : Tables)
    → replace_hash (table_accounts fresh now) now username hash w ≡ (none, w')
    → IsReset hash username now w w'
unfolding replace_hash table_accounts on_operators update_password_hash
replace_hash-IsReset fresh now username hash w w' h =
    elim (Option-cases
      (find_operator username (update_password_rows username hash now w.operators))) [
        | inl e ↦ ground (arith, e)
        | inr (o, e) ↦
            let done : record w {
              operators = update_password_rows username hash now w.operators;
              db = revoke_subject token_kind_session o.id now w.db;
            }
                ≡ w' =
              ground (arith, e) in
            record {
              operator = o;
              found = rw (sym done) e;
              replaced = find_operator-update_password_rows username hash now w.operators o e;
              revoked = ap (λ u. u.db) (sym done);
            }
      ]

reset_password-replace_hash :
    {W : Type 0} (hash_password : Bytes → Option Bytes) (accounts : Accounts W) (now : Time)
    (username password : Bytes) (w w' : W)
    → reset_password hash_password accounts now username password w ≡ (none, w')
    → (hash : Bytes) × (validate_password_strength password ≡ none)
      × (hash_password password ≡ some hash)
      × (replace_hash accounts now username hash w ≡ (none, w'))
unfolding reset_password
reset_password-replace_hash hash_password accounts now username password w w' h =
    elim (Bool-cases (is_empty (trim_space username))) [
      | inl e ↦ ground (arith, e)
      | inr e ↦ elim (Option-cases (validate_password_strength password)) [
        | inr (x, f) ↦ ground (arith, e, f)
        | inl f ↦ elim (Option-cases (hash_password password)) [
          | inl g ↦ ground (arith, e, f, g)
          | inr (hash, g) ↦ (hash, f, g, ground (arith, e, f, g))
        ]
      ]
    ]

-- If `ResetPassword` reports no error, at a time that is not the zero time, then the password is strong
-- enough, the operator of that name exists and has the new password's hash, and from then on no request
-- passes with a session of that operator.
pub reset_password-IsLoggedOut :
    (hash_secret : Bytes → Bytes) (hash_password : Bytes → Option Bytes) (fresh : Bytes)
    (now : Time) (username password : Bytes) (w w' : Tables)
    → 0 < now
    → reset_password hash_password (table_accounts fresh now) now username password w ≡ (none, w')
    → (o : Operator) × (validate_password_strength password ≡ none)
      × (find_operator username w'.operators ≡ some o)
      × (hash_password password ≡ some o.password_hash)
      × IsLoggedOut hash_secret o.id w'.db
reset_password-IsLoggedOut hash_secret hash_password fresh now username password w w' p h =
    let (hash, strong, hashed, replaced) =
      reset_password-replace_hash hash_password (table_accounts fresh now) now username password w
        w' h in
    let r = replace_hash-IsReset fresh now username hash w w' replaced in
    (
      r.operator,
      strong,
      r.found,
      hashed ∙ ap some (sym r.replaced),
      λ time header (subj, k, owned).
          revoke_subject-require_kind hash_secret token_kind_session r.operator.id now w.db time
            header subj p
            (subst
              (λ d.
                require_kind hash_secret (by_lookup d) token_kind_session time header ≡ some subj)
              r.revoked k)
            owned,
    )
