-- ===== src/Store/Revoked.antt =====
-- What `RevokeSubject` leaves behind: no current token of the subject, and no other row changed.
use aliasdeck.Prelude.{
  ◌<◌, ◌≡◌, sym, inl, inr, false, ◌&&◌, List, [], ◌∷◌, some, Bool-cases, ◌==◌, arith,
}
use aliasdeck.Text.{Bytes, same}
use aliasdeck.Domain.Alias.{Time}
use aliasdeck.Auth.Token.{Token, TokenKind}
use aliasdeck.Store.Tokens.{find_token, revoke_subject_rows}

pub find_token-revoke_subject_rows :
    (lookup : Bytes) (kind : TokenKind) (subject : Bytes) (now : Time) (ts : List Token)
    (tok : Token)
    → 0 < now
    → find_token lookup (revoke_subject_rows kind subject now ts) ≡ some tok
    → same tok.kind kind && same tok.subject_id subject && tok.revoked_at == 0 ≡ false
unfolding find_token revoke_subject_rows
find_token-revoke_subject_rows lookup kind subject now [] tok p h = cc
find_token-revoke_subject_rows lookup kind subject now (t ∷ ts) tok p h =
    let later = find_token-revoke_subject_rows lookup kind subject now ts tok p in
    elim (Bool-cases (same t.kind kind && same t.subject_id subject && t.revoked_at == 0)) [
      | inl e ↦ elim (Bool-cases (same t.lookup lookup)) [
        | inl f ↦ let revoked : now ≡ tok.revoked_at = ground (arith, e, f) in ground (arith, e, f)
        | inr f ↦ ground (arith, e, f, later)
      ]
      | inr e ↦ elim (Bool-cases (same t.lookup lookup)) [
        | inl f ↦ let it : t ≡ tok = ground (arith, e, f) in (rw (sym it) e)
        | inr f ↦ ground (arith, e, f, later)
      ]
    ]
