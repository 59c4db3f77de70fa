-- ===== src/Auth/Token.antt =====
-- internal/auth/token.go. The package crypto/sha256, the random source and the token store are
-- parameters: `hash_secret`, the drawn texts, and `EnrollmentTokens`. Times are numbers, the zero time is 0.
use aliasdeck.Prelude.{
  ℕ, Bool, ◌&&◌, ◌||◌, not, List, [], ◌∷◌, ◌++◌, Option, none, some, is_empty, ltb, ◌==◌,
  if◌then◌else◌, ◌>>=◌,
}
use aliasdeck.Prelude.{Result, ok, err}
use aliasdeck.Text.{Bytes, codes, same, cut, cut_prefix}
use aliasdeck.Store.Errors.{StoreError}

-- `store.TokenKind`, a string.
abbrev pub TokenKind : Type 0
TokenKind = Bytes

abbrev pub token_kind_session : TokenKind
token_kind_session = codes "session"

abbrev pub token_kind_enrollment : TokenKind
token_kind_enrollment = codes "enrollment"

abbrev pub token_kind_device : TokenKind
token_kind_device = codes "device"

pub data AuthError : Type 0 where
  unknown_token_kind : AuthError
  no_randomness : AuthError
  malformed_token : AuthError
  wrong_token_kind : AuthError
  revoked_token : AuthError
  expired_token : AuthError
  wrong_secret : AuthError
  store_failure : StoreError → AuthError

unfoldable pub token_prefix : Bytes
token_prefix = codes "ad"

-- The map `kindBytes`.
unfoldable pub kind_byte : TokenKind → Option ℕ
kind_byte kind =
    if same kind token_kind_session
    then some b's'
    else if same kind token_kind_enrollment
    then some b'e'
    else if same kind token_kind_device
    then some b'd'
    else none

-- The map `byteKinds`.
unfoldable pub byte_kind : ℕ → Option TokenKind
byte_kind b =
    if b == b's'
    then some token_kind_session
    else if b == b'e'
    then some token_kind_enrollment
    else if b == b'd'
    then some token_kind_device
    else none

pub record MintedToken : Type 0 where
  pub wire : Bytes
  pub lookup : Bytes
  pub secret_hash : Bytes

unfoldable pub wire_text : ℕ → Bytes → Bytes → Bytes
wire_text kind lookup secret =
    token_prefix ++ (kind ∷ codes "_" ++ (lookup ++ (codes "." ++ secret)))

-- `Mint`, on the texts that `randomURLSafeString` gives; `none` where the random source fails.
unfoldable pub mint :
    (Bytes → Bytes) → TokenKind → Option Bytes → Option Bytes → Result AuthError MintedToken
unfolding wire_text kind_byte
mint hash_secret kind lookup secret = elim (kind_byte kind) [
  | none ↦ err unknown_token_kind
  | some b ↦ elim lookup [
    | none ↦ err no_randomness
    | some l ↦ elim secret [
      | none ↦ err no_randomness
      | some s ↦ ok (record { wire = wire_text b l s; lookup = l; secret_hash = hash_secret s })
    ]
  ]
]

pub record ParsedToken : Type 0 where
  pub kind : TokenKind
  pub lookup : Bytes
  pub secret : Bytes

-- `Parse` behind the kind byte.
unfoldable pub parse_fields : TokenKind → Bytes → Option ParsedToken
parse_fields kind s = do
  rest ← cut_prefix (codes "_") s
  (lookup, secret) ← cut (codes ".") rest
  (if is_empty lookup || is_empty secret
      then none
      else some (record { kind = kind; lookup = lookup; secret = secret }))

unfoldable pub parse_kind : Bytes → Option ParsedToken
unfolding parse_fields byte_kind
parse_kind [] = none
parse_kind (b ∷ s) = do kind ← byte_kind b; parse_fields kind s

-- `Parse`; its one error is `none`.
unfoldable pub parse : Bytes → Option ParsedToken
unfolding parse_kind token_prefix
parse wire = do rest ← cut_prefix token_prefix wire; parse_kind rest

pub record Token : Type 0 where
  pub id : Bytes
  pub lookup : Bytes
  pub kind : TokenKind
  pub subject_id : Bytes
  pub secret_hash : Bytes
  pub profile_ids : List Bytes
  pub created_at : ℕ
  pub expires_at : ℕ
  pub used_at : ℕ
  pub revoked_at : ℕ

-- `VerifySecret`
unfoldable pub verify_secret : (Bytes → Bytes) → Bytes → Bytes → Bool
verify_secret hash_secret secret hash = same (hash_secret secret) hash

-- `Verify`: `none` is the error nil.
unfoldable pub verify : Token → TokenKind → ℕ → Option AuthError
verify tok required_kind now =
    if not (same tok.kind required_kind)
    then some wrong_token_kind
    else if not (tok.revoked_at == 0)
    then some revoked_token
    else if not (tok.expires_at == 0) && not (ltb now tok.expires_at)
    then some expired_token
    else none

-- The interface `enrollmentTokens`, on a state `W` of the store and with devices `D`.
pub record EnrollmentTokens (W D : Type 0) : Type 0 where
  pub by_lookup : Bytes → W → Result AuthError Token
  pub consume : Bytes → D → W → Result AuthError D × W

-- `ConsumeEnrollment`
unfoldable pub consume_enrollment :
    {W D : Type 0} → (Bytes → Bytes) → EnrollmentTokens W D → Bytes → D → W → Result AuthError D × W
consume_enrollment hash_secret tokens wire dev w = elim (parse wire) [
  | none ↦ (err malformed_token, w)
  | some parsed ↦
      if not (same parsed.kind token_kind_enrollment)
      then (err wrong_token_kind, w)
      else elim (tokens.by_lookup parsed.lookup w) [
        | err e ↦ (err e, w)
        | ok tok ↦
            if not (verify_secret hash_secret parsed.secret tok.secret_hash)
            then (err wrong_secret, w)
            else tokens.consume parsed.lookup dev w
      ]
]
