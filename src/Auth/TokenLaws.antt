-- ===== src/Auth/TokenLaws.antt =====
-- What a wire token says, and who passes with it.
use aliasdeck.Prelude.{
  ℕ, ◌<◌, ◌≡◌, refl, sym, ap, ◌∙◌, ◌↔◌, ◌⊎◌, inl, inr, true, false, ◌||◌, [], ◌∷◌, ◌++◌,
  append_assoc, none, some, is_empty, or_parts, Bool-cases, Option-cases, arith,
}
use aliasdeck.Prelude.{ok, Result-cases}
use mathlib.Core.Path.{subst}
use aliasdeck.Text.{Bytes, codes, same, cut, cut_prefix}
use aliasdeck.Text.Equality.{same_iff}
use aliasdeck.Text.Search.{Lacks, cut_sound, cut-byte, cut_prefix-append, cut_prefix_sound}
use aliasdeck.Auth.Token.{
  TokenKind, token_kind_session, token_kind_enrollment, token_kind_device, token_prefix, kind_byte,
  byte_kind, wire_text, ParsedToken, parse_fields, parse_kind, parse, Token, verify_secret, verify,
  EnrollmentTokens, consume_enrollment, mint, MintedToken,
}

cut-Lacks :
    (c : ℕ) (s : Bytes) {before rest : Bytes}
    → cut (c ∷ []) s ≡ some (before, rest)
    → Lacks c before
unfolding cut cut_prefix
cut-Lacks c [] h = cc
cut-Lacks c (d ∷ s) {before} {rest} h = elim (Option-cases (cut (c ∷ []) s)) [
  | inl e ↦ ground arith
  | inr ((b, r), e) ↦ ground (arith, cut-Lacks c s {before = b} {rest = r})
]

byte_kind_sound : (b : ℕ) {k : TokenKind} → byte_kind b ≡ some k → kind_byte k ≡ some b
unfolding byte_kind kind_byte same
byte_kind_sound b h = ground arith

kind_byte_sound : (k : TokenKind) {b : ℕ} → kind_byte k ≡ some b → byte_kind b ≡ some k
unfolding kind_byte byte_kind
kind_byte_sound k {b} h = elim (Bool-cases (same k token_kind_session)) [
  | inl e ↦ ground (arith, e, (same_iff k token_kind_session).0 e)
  | inr e ↦ elim (Bool-cases (same k token_kind_enrollment)) [
    | inl f ↦ ground (arith, e, f, (same_iff k token_kind_enrollment).0 f)
    | inr f ↦ elim (Bool-cases (same k token_kind_device)) [
      | inl g ↦ ground (arith, e, f, g, (same_iff k token_kind_device).0 g)
      | inr g ↦ ground (arith, e, f, g)
    ]
  ]
]

-- The parts of a token that `parse` accepts.
pub record IsWire (wire : Bytes) (t : ParsedToken) : Type 0 where
  pub kind : ℕ
  pub known : kind_byte t.kind ≡ some kind
  pub spelled : wire ≡ wire_text kind t.lookup t.secret
  pub lookup_ne : is_empty t.lookup ≡ false
  pub secret_ne : is_empty t.secret ≡ false
  pub plain : Lacks b'.' t.lookup

parse_fields-wire :
    (kind : TokenKind) (lookup secret : Bytes)
    → Lacks b'.' lookup
    → is_empty lookup ≡ false
    → is_empty secret ≡ false
    → parse_fields kind (codes "_" ++ (lookup ++ (codes "." ++ secret)))
      ≡ some (record { kind = kind; lookup = lookup; secret = secret })
unfolding parse_fields
parse_fields-wire kind lookup secret h k l = rw (
  cut_prefix-append (codes "_") (lookup ++ (codes "." ++ secret)),
  cut-byte b'.' lookup secret h,
  k,
  l,
)

parse-wire : (wire : Bytes) (t : ParsedToken) → IsWire wire t → parse wire ≡ some t
unfolding parse wire_text parse_kind
parse-wire wire t h =
    rw
      (
        h.spelled,
        cut_prefix-append token_prefix
            (h.kind ∷ codes "_" ++ (t.lookup ++ (codes "." ++ t.secret))),
        kind_byte_sound t.kind {b = h.kind} h.known,
      )
      (parse_fields-wire t.kind t.lookup t.secret h.plain h.lookup_ne h.secret_ne)

abbrev HasFields : TokenKind → Bytes → ParsedToken → Type 0
HasFields kind s t =
    (t.kind ≡ kind)
    × (s ≡ codes "_" ++ (t.lookup ++ (codes "." ++ t.secret)))
    × Lacks b'.' t.lookup
    × (is_empty t.lookup ≡ false)
    × (is_empty t.secret ≡ false)

parse_fields_parts :
    (kind : TokenKind) (s : Bytes) {t : ParsedToken}
    → parse_fields kind s ≡ some t
    → HasFields kind s t
unfolding parse_fields
parse_fields_parts kind s {t} h = elim (Option-cases (cut_prefix (codes "_") s)) [
  | inl e ↦ ground (arith, e)
  | inr (rest, e) ↦ elim (Option-cases (cut (codes ".") rest)) [
    | inl f ↦ ground (arith, e, f)
    | inr ((lookup, secret), f) ↦
        let plain = cut-Lacks b'.' rest {before = lookup} {rest = secret} f in
        let whole = cut_sound (codes ".") rest {before = lookup} {rest = secret} f in
        let front = cut_prefix_sound (codes "_") s {r = rest} e in
        elim (Bool-cases (is_empty lookup || is_empty secret)) [
          | inl g ↦ ground (arith, e, f, g)
          | inr g ↦
              let made : record { kind = kind; lookup = lookup; secret = secret } ≡ t =
                ground (arith, e, f, g) in
              let (lookup_ne, secret_ne) = (or_parts (is_empty lookup) (is_empty secret)).0 g in
              subst (HasFields kind s) made (
                refl,
                front ∙ ap (λ u. codes "_" ++ u) (whole ∙ append_assoc lookup (codes ".") secret),
                plain,
                lookup_ne,
                secret_ne,
              )
        ]
  ]
]

parse_kind-IsWire :
    (s : Bytes) {t : ParsedToken} → parse_kind s ≡ some t → IsWire (token_prefix ++ s) t
unfolding parse_kind wire_text
parse_kind-IsWire [] h = cc
parse_kind-IsWire (b ∷ s) {t} h = elim (Option-cases (byte_kind b)) [
  | inl e ↦ ground (arith, e)
  | inr (k, e) ↦
      let (same_kind, spelled, plain, lookup_ne, secret_ne) =
        parse_fields_parts k s {t = t} (ground (arith, e)) in
      record {
        kind = b;
        known = ap kind_byte same_kind ∙ byte_kind_sound b {k = k} e;
        spelled = ap (λ u. token_prefix ++ b ∷ u) spelled;
        lookup_ne = lookup_ne;
        secret_ne = secret_ne;
        plain = plain;
      }
]

parse-IsWire : (wire : Bytes) (t : ParsedToken) → parse wire ≡ some t → IsWire wire t
unfolding parse
parse-IsWire wire t h = elim (Option-cases (cut_prefix token_prefix wire)) [
  | inl e ↦ ground (arith, e)
  | inr (rest, e) ↦
      subst (λ u. IsWire u t) (sym (cut_prefix_sound token_prefix wire {r = rest} e))
        (parse_kind-IsWire rest {t = t} (ground (arith, e)))
]

-- `Parse` accepts exactly the texts `ad<k>_<lookup>.<secret>` with the byte of a known kind, a lookup
-- that is not empty and has no dot, and a secret that is not empty, and returns these parts.
pub parse_iff : (wire : Bytes) (t : ParsedToken) → (parse wire ≡ some t) ↔ IsWire wire t
parse_iff wire t = (parse-IsWire wire t, parse-wire wire t)

-- Every token that `Mint` makes from a lookup without dots, neither the lookup nor the secret empty, is
-- parsed back to its kind, its lookup and its secret, and the secret verifies against the stored hash.
pub parse-mint :
    (hash_secret : Bytes → Bytes) (kind : TokenKind) (lookup secret : Bytes) (m : MintedToken)
    → mint hash_secret kind (some lookup) (some secret) ≡ ok m
    → Lacks b'.' lookup
    → is_empty lookup ≡ false
    → is_empty secret ≡ false
    → (parse m.wire ≡ some (record { kind = kind; lookup = m.lookup; secret = secret }))
      × (verify_secret hash_secret secret m.secret_hash ≡ true)
unfolding mint
parse-mint hash_secret kind lookup secret m h plain k l = elim (Option-cases (kind_byte kind)) [
  | inl e ↦ ground (arith, e)
  | inr (b, e) ↦
      let made : record {
        wire = wire_text b lookup secret;
        lookup = lookup;
        secret_hash = hash_secret secret;
      }
          ≡ m =
        ground (arith, e) in
      subst
        (λ u.
          (parse u.wire ≡ some (record { kind = kind; lookup = u.lookup; secret = secret }))
          × (verify_secret hash_secret secret u.secret_hash ≡ true))
        made
        (
          parse-wire (wire_text b lookup secret)
              (record { kind = kind; lookup = lookup; secret = secret })
              (record {
                kind = b;
                known = e;
                spelled = refl;
                lookup_ne = k;
                secret_ne = l;
                plain = plain;
              }),
          unfold verify_secret in (same_iff (hash_secret secret) (hash_secret secret)).1 refl,
        )
]

-- `Verify` returns no error exactly for a token of the required kind that is not revoked, and that
-- never expires or has not expired yet.
pub verify_iff :
    (tok : Token) (required_kind : TokenKind) (now : ℕ)
    → (verify tok required_kind now ≡ none) ↔ (
        (tok.kind ≡ required_kind)
        × (tok.revoked_at ≡ 0)
        × ((tok.expires_at ≡ 0) ⊎ (now < tok.expires_at)))
unfolding verify
verify_iff tok required_kind now = elim (Bool-cases (same tok.kind required_kind)) [
  | inl e ↦
      let kind = (same_iff tok.kind required_kind).0 e in
      (λ h. (kind, ground (arith, e), ground (arith, e)), λ (_, r, x). ground (arith, e))
  | inr e ↦ (λ h. ground (arith, e), λ (k, _, _). cc (e, (same_iff tok.kind required_kind).1 k))
]

-- A device is made from an enrollment token only with the right secret: if `ConsumeEnrollment` returns
-- a device, the text is a well-formed enrollment token, the store has a record for its lookup, the
-- secret has the hash of the record, and the result is that of the store's own operation.
pub consume_enrollment-ok :
    {W D : Type 0} (hash_secret : Bytes → Bytes) (tokens : EnrollmentTokens W D) (wire : Bytes)
    (dev d : D) (w w' : W)
    → consume_enrollment hash_secret tokens wire dev w ≡ (ok d, w')
    → (t : ParsedToken) × (tok : Token) × IsWire wire t
      × (t.kind ≡ token_kind_enrollment)
      × (tokens.by_lookup t.lookup w ≡ ok tok)
      × (hash_secret t.secret ≡ tok.secret_hash)
      × (tokens.consume t.lookup dev w ≡ (ok d, w'))
unfolding consume_enrollment verify_secret
consume_enrollment-ok hash_secret tokens wire dev d w w' h = elim (Option-cases (parse wire)) [
  | inl e ↦ ground (arith, e)
  | inr (t, e) ↦ elim (Bool-cases (same t.kind token_kind_enrollment)) [
    | inr f ↦ ground (arith, e, f)
    | inl f ↦ elim (Result-cases (tokens.by_lookup t.lookup w)) [
      | inl (x, g) ↦ ground (arith, e, f, g)
      | inr (tok, g) ↦ elim (Bool-cases (same (hash_secret t.secret) tok.secret_hash)) [
        | inr i ↦ ground (arith, e, f, g, i)
        | inl i ↦ (
          t,
          tok,
          parse-IsWire wire t e,
          (same_iff t.kind token_kind_enrollment).0 f,
          g,
          (same_iff (hash_secret t.secret) tok.secret_hash).0 i,
          ground (arith, e, f, g, i),
        )
      ]
    ]
  ]
]
