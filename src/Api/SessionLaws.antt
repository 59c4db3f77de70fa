-- ===== src/Api/SessionLaws.antt =====
-- A session opens the routes of its operator until it ends.
use aliasdeck.Prelude.{
  ℕ, ◌+◌, ◌<◌, ◌≡◌, refl, sym, ap, inl, inr, false, List, [], ◌∷◌, ◌++◌, none, some, any, is_empty,
  Bool-cases, Option-cases, ◌==◌, if◌then◌else◌, arith,
}
use aliasdeck.Prelude.{ok, Result-cases}
use aliasdeck.Text.{Bytes}
use aliasdeck.Text.Search.{Lacks}
use aliasdeck.Text.Equality.{same_refl}
use aliasdeck.Domain.Alias.{Time}
use aliasdeck.Auth.Token.{
  Token, TokenKind, MintedToken, ParsedToken, kind_byte, mint, token_kind_session,
}
use aliasdeck.Auth.TokenLaws.{parse_iff, parse-mint}
use aliasdeck.Auth.Middleware.{Subject, bearer_prefix, require_kind}
use aliasdeck.Auth.MiddlewareLaws.{require_kind_iff, subject_of}
use aliasdeck.Auth.Password.{Crypto, verify_password, try_acquire}
use aliasdeck.Store.Tokens.{Database, find_token, by_lookup, token_clashes, create_token}
use aliasdeck.Store.Operators.{Operator, find_operator}
use aliasdeck.Store.Accounts.{Tables}
use aliasdeck.Api.Session.{
  session_lifetime, LoginResponse, Draws, session_token, open_session, handle_login,
}

find_token-append :
    (t : Token) (ts : List Token)
    → any (token_clashes t) ts ≡ false
    → find_token t.lookup (ts ++ t ∷ []) ≡ some t
unfolding find_token token_clashes
find_token-append t [] h = ground (arith, same_refl t.lookup)
find_token-append t (s ∷ ts) h = ground (arith, h, find_token-append t ts)

-- The row that `create_token` adds.
abbrev pub created_row : Bytes → Time → Token → Token
created_row fresh now t = record t {
  id = if is_empty t.id then fresh else t.id;
  created_at = if t.created_at == 0 then now else t.created_at;
}

pub by_lookup-create_token :
    (fresh : Bytes) (now : Time) (t : Token) (db db' : Database)
    → create_token fresh now t db ≡ (none, db')
    → by_lookup db' t.lookup ≡ ok (created_row fresh now t)
unfolding create_token by_lookup
by_lookup-create_token fresh now t db db' h =
    elim (Bool-cases (any (token_clashes (created_row fresh now t)) db.tokens)) [
      | inl e ↦ ground (arith, e, h)
      | inr e ↦
          let it : record db { tokens = db.tokens ++ created_row fresh now t ∷ [] } ≡ db' =
            ground (arith, e, h) in
          rw (sym it) (rw (by_lookup, find_token-append (created_row fresh now t) db.tokens e) refl)
    ]

-- What stands behind an open session.
pub record IsOpened (hash_secret : Bytes → Bytes) (draws : Draws) (now : Time) (op : Operator)
    (r : LoginResponse) (w' : Tables) : Type 0 where
  pub minted : MintedToken
  pub mints : mint hash_secret token_kind_session draws.lookup draws.secret ≡ ok minted
  pub kept :
      by_lookup w'.db minted.lookup ≡ ok (created_row draws.fresh now (session_token op minted now))
  pub answer : r ≡ record { token = minted.wire; expires_at = now + session_lifetime }

open_session-IsOpened :
    (hash_secret : Bytes → Bytes) (draws : Draws) (now : Time) (op : Operator) (w : Tables)
    (r : LoginResponse) (w' : Tables)
    → open_session hash_secret draws now op w ≡ (ok r, w')
    → IsOpened hash_secret draws now op r w'
unfolding open_session
open_session-IsOpened hash_secret draws now op w r w' h =
    elim (Result-cases (mint hash_secret token_kind_session draws.lookup draws.secret)) [
      | inl (x, e) ↦ ground (arith, e, h)
      | inr (minted, e) ↦
          let made = create_token draws.fresh now (session_token op minted now) w.db in
          elim (Option-cases made.0) [
            | inr (x, f) ↦ ground (arith, e, f, h)
            | inl f ↦
                let after : record w { db = made.1 } ≡ w' = ground (arith, e, f, h) in
                record {
                  minted = minted;
                  mints = e;
                  kept =
                      by_lookup-create_token draws.fresh now (session_token op minted now) w.db
                        w'.db (λ i. (f i, (after i).db));
                  answer = ground (arith, e, f, h);
                }
          ]
    ]

-- The secret that was drawn: what `Mint` made the token of.
pub mint-drawn :
    (hash_secret : Bytes → Bytes) (kind : TokenKind) (lookup secret : Bytes) (m : MintedToken)
    → mint hash_secret kind (some lookup) (some secret) ≡ ok m
    → (m.lookup ≡ lookup) × (m.secret_hash ≡ hash_secret secret)
unfolding mint
mint-drawn hash_secret kind lookup secret m h = elim (Option-cases (kind_byte kind)) [
  | inl e ↦ ground (arith, e, h)
  | inr (b, e) ↦ (ground (arith, e, h), ground (arith, e, h))
]

-- The operator's name and password are right.
handle_login-ok :
    (crypto : Crypto) (hash_secret : Bytes → Bytes) (draws : Draws) (now : Time) (held : ℕ)
    (username password : Bytes) (w : Tables) (r : LoginResponse) (w' : Tables)
    → handle_login crypto hash_secret draws now held username password w ≡ (ok r, w')
    → (op : Operator) × (find_operator username w.operators ≡ some op)
      × (verify_password crypto password op.password_hash ≡ none)
      × (open_session hash_secret draws now op w ≡ (ok r, w'))
unfolding handle_login
handle_login-ok crypto hash_secret draws now held username password w r w' h =
    elim (Option-cases (find_operator username w.operators)) [
      | inl e ↦ ground (arith, e, h)
      | inr (op, e) ↦ elim (Bool-cases (try_acquire held).0) [
        | inr f ↦ ground (arith, e, f, h)
        | inl f ↦ elim (Option-cases (verify_password crypto password op.password_hash)) [
          | inr (x, g) ↦ ground (arith, e, f, g, h)
          | inl g ↦ (op, e, g, ground (arith, e, f, g, h))
        ]
      ]
    ]

-- A login that succeeds had the operator's password, and its token passes `RequireKind` as a session of
-- that operator until a day later, where the lookup that was drawn has no dot and neither text is empty.
pub handle_login-require_kind :
    (crypto : Crypto) (hash_secret : Bytes → Bytes) (fresh lookup secret : Bytes) (now : Time)
    (held : ℕ) (username password : Bytes) (w : Tables) (r : LoginResponse) (w' : Tables)
    (time : Time)
    → handle_login crypto hash_secret
        (record { fresh = fresh; lookup = some lookup; secret = some secret })
        now
        held
        username
        password
        w
      ≡ (ok r, w')
    → Lacks b'.' lookup
    → is_empty lookup ≡ false
    → is_empty secret ≡ false
    → time < now + session_lifetime
    → (op : Operator) × (subj : Subject) × (find_operator username w.operators ≡ some op)
      × (verify_password crypto password op.password_hash ≡ none)
      × (require_kind hash_secret
            (by_lookup w'.db)
            token_kind_session
            time
            (bearer_prefix ++ r.token)
          ≡ some subj)
      × (subj.subject_id ≡ op.id)
handle_login-require_kind crypto hash_secret fresh lookup secret now held username password w r w'
      time h plain l s t =
    let draws : Draws = record { fresh = fresh; lookup = some lookup; secret = some secret } in
    let (op, found, right, opened) =
      handle_login-ok crypto hash_secret draws now held username password w r w' h in
    let o = open_session-IsOpened hash_secret draws now op w r w' opened in
    let (read, _) =
      parse-mint hash_secret token_kind_session lookup secret o.minted o.mints plain l s in
    let parsed : ParsedToken = record {
      kind = token_kind_session;
      lookup = o.minted.lookup;
      secret = secret;
    } in
    let (_, hashed) = mint-drawn hash_secret token_kind_session lookup secret o.minted o.mints in
    let row = created_row fresh now (session_token op o.minted now) in
    (
      op,
      subject_of row,
      found,
      right,
      (require_kind_iff hash_secret (by_lookup w'.db) token_kind_session time
            (bearer_prefix ++ r.token) (subject_of row)).1
          (record {
            wire = o.minted.wire;
            parsed = parsed;
            tok = row;
            bearer = ap (λ u. bearer_prefix ++ u.token) o.answer;
            spelled = (parse_iff o.minted.wire parsed).0 read;
            found = o.kept;
            current = (sym hashed, refl, refl, inr t);
            named = refl;
          }),
      refl,
    )
