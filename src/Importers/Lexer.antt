-- ===== src/Importers/Lexer.antt =====
-- internal/importers/posix.go: one shell word, quoted and unquoted parts joined.
use aliasdeck.Prelude.{
  ℕ, zero, suc, ◌+◌, Bool, true, false, ◌||◌, [], ◌∷◌, ◌++◌, none, some, take, ◌==◌, if◌then◌else◌,
}
use aliasdeck.Text.{Bytes, codes, quote, is_blank, index_where}

abbrev pub double_quote : ℕ
double_quote = 34

abbrev pub backslash : ℕ
backslash = 92

-- What a byte means to the lexer outside quotes.
pub data Kind : Type 0 where
  blank single double escape plain : Kind

unfoldable pub kind : ℕ → Kind
unfolding is_blank
kind c =
    if is_blank c
    then blank
    else if c == quote
    then single
    else if c == double_quote
    then double
    else if c == backslash
    then escape
    else plain

-- What a byte means between double quotes.
pub data Inner : Type 0 where
  closes escapes expands copies : Inner

unfoldable pub inner_kind : ℕ → Inner
inner_kind c =
    if c == double_quote
    then closes
    else if c == backslash
    then escapes
    else if c == b'$' || c == b'`'
    then expands
    else copies

-- The four bytes that a backslash escapes between double quotes.
unfoldable pub is_escapable : Bytes → Bool
is_escapable [] = false
is_escapable (d ∷ s) = d == double_quote || d == backslash || d == b'$' || d == b'`'

-- The loop of `lexDoubleQuoted`. The first argument counts escaped bytes to be passed over; then come
-- the text built so far, whether an expansion was seen, and the bytes consumed.
unfoldable pub lex_double_from : ℕ → Bytes → Bool → ℕ → Bytes → Bytes × Bool × ℕ
lex_double_from k b expanded n [] = (b, expanded, n)
lex_double_from (suc k) b expanded n (c ∷ s) = lex_double_from k b expanded n s
lex_double_from zero b expanded n (c ∷ s) = elim (inner_kind c) [
  | closes ↦ (b, expanded, n + 1)
  | escapes ↦ elim (is_escapable s) [
    | true ↦ lex_double_from 1 (b ++ take 1 s) expanded (n + 2) s
    | false ↦ lex_double_from 0 (b ++ c ∷ []) expanded (n + 1) s
  ]
  | expands ↦ lex_double_from 0 (b ++ c ∷ []) true (n + 1) s
  | copies ↦ lex_double_from 0 (b ++ c ∷ []) expanded (n + 1) s
]

unfoldable pub lex_double_quoted : Bytes → Bytes × Bool × ℕ
lex_double_quoted s = lex_double_from 0 [] false 0 s

-- Bytes that the shell expands when it reads the definition.
unfoldable pub is_expandable : ℕ → Bool
is_expandable c = c == b'$' || c == b'`' || c == b'~'

-- The loop of `lexValue`. The first argument counts the bytes of a quoted part that are to be passed
-- over; then come the text built so far, and whether an expansion was seen.
unfoldable pub lex_from : ℕ → Bytes → Bool → Bytes → Bytes × Bool × Bytes
lex_from k b expandable [] = (b, expandable, [])
lex_from (suc k) b expandable (c ∷ s) = lex_from k b expandable s
lex_from zero b expandable (c ∷ s) = elim (kind c) [
  | blank ↦ (b, expandable, c ∷ s)
  | single ↦ elim (index_where (λ d. d == quote) s) [
    | none ↦ (b ++ s, expandable, [])
    | some j ↦ lex_from (j + 1) (b ++ take j s) expandable s
  ]
  | double ↦ let (seg, saw, n) = lex_double_quoted s in lex_from n (b ++ seg) (expandable || saw) s
  | escape ↦ lex_from 1 (b ++ take 1 s) expandable s
  | plain ↦ lex_from 0 (b ++ c ∷ []) (expandable || is_expandable c) s
]

unfoldable pub expansion_note : Bytes
expansion_note =
    codes
      "the shell expanded this when the file was sourced; AliasDeck stores it as written and expands it when the alias runs"

-- `lexValue`: the value, the note, and the rest.
unfoldable pub lex_value : Bytes → Bytes × Bytes × Bytes
lex_value s =
    let (value, expandable, rest) = lex_from 0 [] false s in
    (value, if expandable then expansion_note else [], rest)
