-- ===== src/Renderers/QuoteLaws.antt =====
-- Quoted text, byte by byte, and how PowerShell reads it back.
use aliasdeck.Prelude.{
  ℕ, ◌≤◌, ◌≡◌, ◌≢◌, inl, inr, ◌||◌, List, [], ◌∷◌, ◌++◌, All, Bool-cases, ltb, ◌==◌, arith,
}
use mathlib.Core.List.{flat_map}
use aliasdeck.Text.{Bytes, quote}
use aliasdeck.Text.Replace.{substitute, replace_all-byte}
use aliasdeck.Text.Search.{Lacks}
use aliasdeck.Utf8.Clean.{All-append, All-flat_map, All-trim_space, encode_rune-All}
use aliasdeck.Utf8.{runes}
use aliasdeck.Renderers.Quote.{
  escaped_quote, quote_posix, quote_powershell, clean_rune, sanitize_comment,
}

pub quote_posix_lem :
    (s : Bytes) → quote_posix s ≡ quote ∷ flat_map (substitute quote escaped_quote) s ++ quote ∷ []
unfolding quote_posix
quote_posix_lem s = rw (replace_all-byte quote escaped_quote s)

pub quote_powershell_lem :
    (s : Bytes)
    → quote_powershell s ≡ quote ∷ flat_map (substitute quote (quote ∷ quote ∷ [])) s ++ quote ∷ []
unfolding quote_powershell
quote_powershell_lem s = rw (replace_all-byte quote (quote ∷ quote ∷ []) s)

substitute-Lacks :
    (c : ℕ) (new : Bytes) (d : ℕ) → Lacks c new → d ≢ c → Lacks c (substitute quote new d)
substitute-Lacks c new d h k = ground arith

flat_map-substitute-Lacks :
    (c : ℕ) (new s : Bytes) → Lacks c new → Lacks c s → Lacks c (flat_map (substitute quote new) s)
unfolding flat_map
flat_map-substitute-Lacks c new [] h k = tt
flat_map-substitute-Lacks c new (d ∷ s) h k =
    All-append _ (substitute quote new d) _ (substitute-Lacks c new d h k.0)
      (flat_map-substitute-Lacks c new s h k.1)

-- Quoting brings no byte but quotes and backslashes.
pub quote_posix-Lacks :
    (c : ℕ) (s : Bytes) → c ≢ quote → c ≢ 92 → Lacks c s → Lacks c (quote_posix s)
quote_posix-Lacks c s q b h = rw (quote_posix_lem s) (
  ground arith,
  All-append _ _ (quote ∷ []) (flat_map-substitute-Lacks c escaped_quote s (ground arith) h)
      (ground arith),
)

pub quote_powershell-Lacks :
    (c : ℕ) (s : Bytes) → c ≢ quote → Lacks c s → Lacks c (quote_powershell s)
quote_powershell-Lacks c s q h = rw (quote_powershell_lem s) (
  ground arith,
  All-append _ _ (quote ∷ []) (flat_map-substitute-Lacks c (quote ∷ quote ∷ []) s (ground arith) h)
      (ground arith),
)

-- A byte that a comment may hold: no control character at all.
abbrev pub IsCommentByte : ℕ → Type 0
IsCommentByte c = (0x20 ≤ c) × (c ≢ 0x7F)

clean_rune-All : (r : ℕ) → All IsCommentByte (clean_rune r)
unfolding clean_rune
clean_rune-All r = elim (Bool-cases (r == 9)) [
  | inl e ↦ rw e (encode_rune-All IsCommentByte 32 (λ b h. omega arith) (λ h. omega arith))
  | inr e ↦ elim (Bool-cases (ltb r 0x20 || r == 0x7F)) [
    | inl f ↦ rw (e, f) tt
    | inr f ↦ rw (e, f) (encode_rune-All IsCommentByte r (λ b h. omega arith) (λ h. ground arith))
  ]
]

-- What is left of a text as a comment has no control character, whatever the text holds.
pub sanitize_comment-All : (s : Bytes) → All IsCommentByte (sanitize_comment s)
unfolding sanitize_comment
sanitize_comment-All s =
    All-trim_space IsCommentByte _
      (All-flat_map IsCommentByte clean_rune (runes s) (everywhere (runes s)))
  where
    everywhere : (rs : List ℕ) → All (λ r. All IsCommentByte (clean_rune r)) rs
    everywhere [] = tt
    everywhere (r ∷ rs) = (clean_rune-All r, everywhere rs)
