-- ===== src/Auth/Middleware.antt =====
-- internal/auth/middleware.go: `RequireKind`. The HTTP layer and the token store are parameters: the
-- header's text, and the lookup.
use aliasdeck.Prelude.{ℕ, not, Option, none, some, is_empty, if◌then◌else◌, ◌>>=◌}
use aliasdeck.Prelude.{Result, ok, err}
use aliasdeck.Text.{Bytes, codes, cut_prefix}
use aliasdeck.Auth.Token.{Token, TokenKind, ParsedToken, parse, verify, verify_secret}
use aliasdeck.Store.Errors.{StoreError}

pub record Subject : Type 0 where
  pub token_id : Bytes
  pub kind : TokenKind
  pub subject_id : Bytes

abbrev pub bearer_prefix : Bytes
bearer_prefix = codes "Bearer "

-- `bearerToken`; a missing header is the empty text.
unfoldable pub bearer_token : Bytes → Option Bytes
unfolding cut_prefix
bearer_token header = do
  token ← cut_prefix bearer_prefix header
  (if is_empty token then none else some token)

-- `RequireKind` behind the lookup.
unfoldable pub admit : (Bytes → Bytes) → TokenKind → ℕ → ParsedToken → Token → Option Subject
unfolding verify verify_secret
admit hash_secret kind now parsed tok =
    if not (verify_secret hash_secret parsed.secret tok.secret_hash)
    then none
    else elim (verify tok kind now) [
      | some e ↦ none
      | none ↦ some (record { token_id = tok.id; kind = tok.kind; subject_id = tok.subject_id })
    ]

-- `RequireKind`: the subject that the handler is called with, or `none` where the request is refused.
unfoldable pub require_kind :
    (Bytes → Bytes) → (Bytes → Result StoreError Token) → TokenKind → ℕ → Bytes → Option Subject
unfolding bearer_token parse admit
require_kind hash_secret by_lookup kind now header = do
  wire ← bearer_token header
  parsed ← parse wire
  elim (by_lookup parsed.lookup) [ err e ↦ none | ok tok ↦ admit hash_secret kind now parsed tok ]
