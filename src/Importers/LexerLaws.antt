-- ===== src/Importers/LexerLaws.antt =====
-- The lexer reads a quoted text back.
use aliasdeck.Prelude.{
  ℕ, zero, suc, ◌+◌, ◌≡◌, refl, ◌∙◌, inl, inr, Bool, true, false, [], ◌∷◌, ◌++◌, append_assoc,
  append-nil, some, length, take, drop, ==_iff, Bool-cases, ◌==◌, arith,
}
use mathlib.Core.List.{flat_map}
use aliasdeck.Text.{Bytes, quote, is_blank, index_where}
use aliasdeck.Text.Search.{Lacks}
use aliasdeck.Text.Replace.{substitute}
use aliasdeck.Utf8.Clean.{All-append}
use aliasdeck.Renderers.Quote.{escaped_quote, quote_posix}
use aliasdeck.Renderers.QuoteLaws.{quote_posix_lem}
use aliasdeck.Importers.Lexer.{kind, lex_from, lex_value}

-- The end of a word: the end of the text, or a blank.
abbrev pub IsWordEnd : Bytes → Type 0
IsWordEnd [] = Unit
IsWordEnd (c ∷ s) = is_blank c ≡ true

lex_from-drop :
    (k : ℕ) (b : Bytes) (e : Bool) (s : Bytes) → lex_from k b e s ≡ lex_from 0 b e (drop k s)
unfolding lex_from
lex_from-drop zero b e s = refl
lex_from-drop (suc k) b e [] = refl
lex_from-drop (suc k) b e (c ∷ s) = lex_from-drop k b e s

index_of_quote :
    (seg t : Bytes)
    → Lacks quote seg
    → index_where (λ d. d == quote) (seg ++ quote ∷ t) ≡ some (length seg)
unfolding index_where
index_of_quote [] t h = refl
index_of_quote (c ∷ seg) t h = ground (arith, index_of_quote seg t h.1)

pub take_segment : (seg t : Bytes) → take (length seg) (seg ++ t) ≡ seg
take_segment [] t = refl
take_segment (c ∷ seg) t = rw (take_segment seg t)

pub drop_segment : (seg : Bytes) (c : ℕ) (t : Bytes) → drop (suc (length seg)) (seg ++ c ∷ t) ≡ t
drop_segment [] c t = refl
drop_segment (d ∷ seg) c t = drop_segment seg c t

lex_from-single :
    (b : Bytes) (e : Bool) (s : Bytes) (j : ℕ)
    → index_where (λ d. d == quote) s ≡ some j
    → lex_from 0 b e (quote ∷ s) ≡ lex_from (j + 1) (b ++ take j s) e s
unfolding lex_from kind
lex_from-single b e s j h = ground arith

pub length_step : (seg : Bytes) → length seg + 1 ≡ suc (length seg)
length_step seg = omega arith

-- One part between single quotes.
lex_from-quoted :
    (b : Bytes) (e : Bool) (seg t : Bytes)
    → Lacks quote seg
    → lex_from 0 b e (quote ∷ seg ++ quote ∷ t) ≡ lex_from 0 (b ++ seg) e t
lex_from-quoted b e seg t h =
    let tail = seg ++ quote ∷ t in
    lex_from-single b e tail (length seg) (index_of_quote seg t h)
    ∙ rw (
      take_segment seg (quote ∷ t),
      length_step seg,
      lex_from-drop (suc (length seg)) (b ++ seg) e tail,
      drop_segment seg quote t,
    )

lex_from-escaped :
    (b : Bytes) (e : Bool) (c : ℕ) (t : Bytes)
    → lex_from 0 b e (92 ∷ c ∷ t) ≡ lex_from 0 (b ++ c ∷ []) e t
unfolding lex_from kind
lex_from-escaped b e c t = refl

-- How the quoted text of `c ∷ s` begins.
flat_map-quote :
    (c : ℕ) (s : Bytes)
    → (c == quote) ≡ true
    → (rest : Bytes) (P : Bytes → Type 0)
    → P (quote ∷ 92 ∷ quote ∷ quote ∷ (flat_map (substitute quote escaped_quote) s ++ quote ∷ rest))
    → P (flat_map (substitute quote escaped_quote) (c ∷ s) ++ quote ∷ rest)
unfolding flat_map
flat_map-quote c s q rest P h = rw q h

flat_map-other :
    (c : ℕ) (s : Bytes)
    → (c == quote) ≡ false
    → (rest : Bytes) (P : Bytes → Type 0)
    → P (c ∷ (flat_map (substitute quote escaped_quote) s ++ quote ∷ rest))
    → P (flat_map (substitute quote escaped_quote) (c ∷ s) ++ quote ∷ rest)
unfolding flat_map
flat_map-other c s q rest P h = rw q h

-- A text behind an opening quote, with the part of it that was read already.
lex_from-substitute :
    (s : Bytes) (b : Bytes) (e : Bool) (seg rest : Bytes)
    → Lacks quote seg
    → lex_from 0 b e (quote ∷ seg ++ (flat_map (substitute quote escaped_quote) s ++ quote ∷ rest))
      ≡ lex_from 0 (b ++ (seg ++ s)) e rest
unfolding flat_map
lex_from-substitute [] b e seg rest h = lex_from-quoted b e seg rest h ∙ rw append-nil
lex_from-substitute (c ∷ s) b e seg rest h = elim (Bool-cases (c == quote)) [
  | inl q ↦
      flat_map-quote c s q rest
        (λ u. lex_from 0 b e (quote ∷ seg ++ u) ≡ lex_from 0 (b ++ (seg ++ c ∷ s)) e rest)
        (lex_from-quoted b e seg _ h
          ∙ lex_from-escaped (b ++ seg) e quote _
          ∙ lex_from-substitute s (b ++ seg ++ quote ∷ []) e [] rest tt
          ∙ rw (append_assoc, (==_iff c quote).0 q, append_assoc))
  | inr q ↦
      flat_map-other c s q rest
        (λ u. lex_from 0 b e (quote ∷ seg ++ u) ≡ lex_from 0 (b ++ (seg ++ c ∷ s)) e rest)
        (rw (← append_assoc seg (c ∷ [])) (
          lex_from-substitute s b e (seg ++ c ∷ []) rest
            (All-append _ seg (c ∷ []) h (ground arith))
          ∙ rw append_assoc))
]

lex_from_at_end :
    (b : Bytes) (e : Bool) (rest : Bytes) → IsWordEnd rest → lex_from 0 b e rest ≡ (b, e, rest)
unfolding lex_from kind
lex_from_at_end b e [] h = refl
lex_from_at_end b e (c ∷ rest) h = ground arith

-- A shell word that `quotePOSIX` wrote is read back as the text, with no note, up to its end.
pub lex_value-quote_posix :
    (s rest : Bytes) → IsWordEnd rest → lex_value (quote_posix s ++ rest) ≡ (s, [], rest)
unfolding lex_value
lex_value-quote_posix s rest h =
    let whole : lex_from 0 [] false (quote_posix s ++ rest) ≡ (s, false, rest) =
      rw (quote_posix_lem s, append_assoc)
        (lex_from-substitute s [] false [] rest tt ∙ lex_from_at_end s false rest h) in
    rw whole
