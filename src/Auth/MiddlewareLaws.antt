-- ===== src/Auth/MiddlewareLaws.antt =====
-- Which requests pass `RequireKind`, and that none does with a token that was revoked.
use aliasdeck.Prelude.{
  ℕ, ◌<◌, ◌≡◌, refl, sym, ap, ◌∙◌, ◌↔◌, ◌⊎◌, inl, inr, false, [], ◌∷◌, ◌++◌, some, is_empty,
  Bool-cases, Option-cases, arith,
}
use aliasdeck.Prelude.{Result, ok, Result-cases}
use aliasdeck.Text.{Bytes, same, cut_prefix}
use aliasdeck.Text.Equality.{same_iff}
use aliasdeck.Text.Search.{cut_prefix_sound, cut_prefix-append}
use aliasdeck.Auth.Token.{Token, TokenKind, ParsedToken, token_prefix, parse, verify, verify_secret}
use aliasdeck.Auth.TokenLaws.{IsWire, parse_iff, verify_iff}
use aliasdeck.Auth.Middleware.{Subject, bearer_prefix, bearer_token, admit, require_kind}
use aliasdeck.Store.Errors.{StoreError}

abbrev pub subject_of : Token → Subject
subject_of tok = record { token_id = tok.id; kind = tok.kind; subject_id = tok.subject_id }

-- A current token of the kind, whose secret the caller knows.
abbrev pub IsCurrent : (Bytes → Bytes) → TokenKind → ℕ → Bytes → Token → Type 0
IsCurrent hash_secret kind now secret tok =
    (hash_secret secret ≡ tok.secret_hash)
    × (tok.kind ≡ kind)
    × (tok.revoked_at ≡ 0)
    × ((tok.expires_at ≡ 0) ⊎ (now < tok.expires_at))

pub admit_iff :
    (hash_secret : Bytes → Bytes) (kind : TokenKind) (now : ℕ) (parsed : ParsedToken) (tok : Token)
    (subj : Subject)
    → (admit hash_secret kind now parsed tok ≡ some subj)
      ↔ (IsCurrent hash_secret kind now parsed.secret tok × (subject_of tok ≡ subj))
unfolding admit verify_secret
admit_iff hash_secret kind now parsed tok subj =
    elim (Bool-cases (same (hash_secret parsed.secret) tok.secret_hash)) [
      | inr e ↦ (
        λ h. ground (arith, e),
        λ ((k, _, _, _), _). cc (e, (same_iff (hash_secret parsed.secret) tok.secret_hash).1 k),
      )
      | inl e ↦
          let hash = (same_iff (hash_secret parsed.secret) tok.secret_hash).0 e in
          elim (Option-cases (verify tok kind now)) [
            | inl f ↦ (
              λ h.
                  let (k, r, x) = (verify_iff tok kind now).0 f in
                  ((hash, k, r, x), ground (arith, e, f)),
              λ (_, m). rw (e, f) (ap some m),
            )
            | inr (x, f) ↦ (
              λ h. ground (arith, e, f),
              λ ((_, k, r, x), _). cc (f, (verify_iff tok kind now).1 (k, r, x)),
            )
          ]
    ]

bearer_token_iff :
    (header wire : Bytes)
    → (bearer_token header ≡ some wire)
      ↔ ((header ≡ bearer_prefix ++ wire) × (is_empty wire ≡ false))
unfolding bearer_token
bearer_token_iff header wire = (
  λ h. elim (Option-cases (cut_prefix bearer_prefix header)) [
    | inl e ↦ ground (arith, e)
    | inr (rest, e) ↦ elim (Bool-cases (is_empty rest)) [
      | inl f ↦ ground (arith, e, f)
      | inr f ↦
          let same_text : rest ≡ wire = ground (arith, e, f) in
          (
            cut_prefix_sound bearer_prefix header {r = rest} e
                ∙ ap (λ u. bearer_prefix ++ u) same_text,
            (rw (sym same_text) f),
          )
    ]
  ],
  λ (h, k). rw (h, cut_prefix-append bearer_prefix wire, k) refl,
)

-- What a request needs in order to pass.
pub record IsAdmitted (hash_secret : Bytes → Bytes) (by_lookup : Bytes → Result StoreError Token)
    (kind : TokenKind) (now : ℕ) (header : Bytes) (subj : Subject) : Type 0 where
  pub wire : Bytes
  pub parsed : ParsedToken
  pub tok : Token
  pub bearer : header ≡ bearer_prefix ++ wire
  pub spelled : IsWire wire parsed
  pub found : by_lookup parsed.lookup ≡ ok tok
  pub current : IsCurrent hash_secret kind now parsed.secret tok
  pub named : subject_of tok ≡ subj

require_kind-IsAdmitted :
    (hash_secret : Bytes → Bytes) (by_lookup : Bytes → Result StoreError Token) (kind : TokenKind)
    (now : ℕ) (header : Bytes) (subj : Subject)
    → require_kind hash_secret by_lookup kind now header ≡ some subj
    → IsAdmitted hash_secret by_lookup kind now header subj
unfolding require_kind
require_kind-IsAdmitted hash_secret by_lookup kind now header subj h =
    elim (Option-cases (bearer_token header)) [
      | inl e ↦ ground (arith, e)
      | inr (wire, e) ↦ elim (Option-cases (parse wire)) [
        | inl f ↦ ground (arith, e, f)
        | inr (parsed, f) ↦ elim (Result-cases (by_lookup parsed.lookup)) [
          | inl (x, g) ↦ ground (arith, e, f, g)
          | inr (tok, g) ↦
              let (current, named) =
                (admit_iff hash_secret kind now parsed tok subj).0 (ground (arith, e, f, g)) in
              record {
                wire = wire;
                parsed = parsed;
                tok = tok;
                bearer = ((bearer_token_iff header wire).0 e).0;
                spelled = (parse_iff wire parsed).0 f;
                found = g;
                current = current;
                named = named;
              }
        ]
      ]
    ]

IsWire-is_empty : (wire : Bytes) (t : ParsedToken) → parse wire ≡ some t → is_empty wire ≡ false
unfolding parse cut_prefix token_prefix
IsWire-is_empty [] t h = cc
IsWire-is_empty (c ∷ s) t h = refl

require_kind-of_IsAdmitted :
    (hash_secret : Bytes → Bytes) (by_lookup : Bytes → Result StoreError Token) (kind : TokenKind)
    (now : ℕ) (header : Bytes) (subj : Subject)
    → IsAdmitted hash_secret by_lookup kind now header subj
    → require_kind hash_secret by_lookup kind now header ≡ some subj
unfolding require_kind
require_kind-of_IsAdmitted hash_secret by_lookup kind now header subj a =
    let parsed = (parse_iff a.wire a.parsed).1 a.spelled in
    let read =
      (bearer_token_iff header a.wire).1 (a.bearer, IsWire-is_empty a.wire a.parsed parsed) in
    rw (read, parsed, a.found)
      ((admit_iff hash_secret kind now a.parsed a.tok subj).1 (a.current, a.named))

-- `RequireKind` calls the handler with a subject exactly when the header is `Bearer ` and a well-formed
-- token, the store has a record for its lookup, the secret has the record's hash, and the record is of the
-- required kind, not revoked, not expired and names that subject. Every other request is refused.
pub require_kind_iff :
    (hash_secret : Bytes → Bytes) (by_lookup : Bytes → Result StoreError Token) (kind : TokenKind)
    (now : ℕ) (header : Bytes) (subj : Subject)
    → (require_kind hash_secret by_lookup kind now header ≡ some subj)
      ↔ IsAdmitted hash_secret by_lookup kind now header subj
require_kind_iff hash_secret by_lookup kind now header subj = (
  require_kind-IsAdmitted hash_secret by_lookup kind now header subj,
  require_kind-of_IsAdmitted hash_secret by_lookup kind now header subj,
)
