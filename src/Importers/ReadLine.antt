-- ===== src/Importers/ReadLine.antt =====
-- How the importer reads one line of a generated file.
use aliasdeck.Prelude.{
  ℕ, suc, ◌≤◌, ◌≡◌, ◌≢◌, refl, sym, ap, ◌∙◌, inl, inr, Bool, true, false, List, [], ◌∷◌, ◌++◌,
  append_assoc, append-nil, none, some, length, is_empty, All, Bool-cases, Option-cases, ◌==◌,
  if◌then◌else◌, arith,
}
use aliasdeck.Prelude.{ok, err}
use mathlib.Core.List.{map, flat_map, reverse}
use mathlib.Core.Path.{subst}
use aliasdeck.Text.{
  Bytes, codes, quote, cut_prefix, has_prefix, trim_suffix, is_blank, trim_left_blank, index_where,
}
use aliasdeck.Text.Search.{Lacks, cut_prefix_sound, has_prefix-append}
use aliasdeck.Utf8.{trim_space, is_space}
use aliasdeck.Utf8.Clean.{All-reverse}
use aliasdeck.Utf8.Trim.{IsInk, trim_space-split, trim_space-front, trim_space_id}
use aliasdeck.Domain.Alias.{Alias}
use aliasdeck.Importers.Lexer.{lex_value}
use aliasdeck.Validate.NameLaws.{IsWord, IsNameByte}
use aliasdeck.Renderers.PosixLines.{definition_line}
use aliasdeck.Renderers.OneLine.{Lacks-of_IsOneLine}
use aliasdeck.Renderers.PosixOneLine.{IsSafeAlias, definition_line-IsOneLine}
use aliasdeck.Text.Replace.{substitute}
use aliasdeck.Renderers.QuoteLaws.{quote_posix_lem}
use aliasdeck.Renderers.Quote.{quote_posix, escaped_quote}
use aliasdeck.Importers.LexerLaws.{take_segment, drop_segment, length_step, lex_value-quote_posix}
use aliasdeck.Importers.Statement.{
  Parsed, empty_name, Assignment, after_keyword, after_alias_keyword, strip_options, blank_before,
  assignment_at, parse_assignment, parse_definitions, parse_statement,
}
use aliasdeck.Importers.Posix.{begin_marker, end_marker, parse_line}

-- What a definition says, without the line that it stands on.
abbrev pub definitions : Parsed → List (Bytes × Bytes × Bytes)
definitions res = map (λ f. (f.name, f.command, f.note)) res.found

-- A text without carriage returns has none to trim.
trim_suffix-Lacks : (s : Bytes) → Lacks 13 s → trim_suffix s (13 ∷ []) ≡ s
unfolding trim_suffix cut_prefix
trim_suffix-Lacks s h = go (reverse s) (All-reverse (λ c. c ≢ 13) s h)
  where
    go :
        (r : Bytes)
        → Lacks 13 r
        → (elim (cut_prefix (13 ∷ []) r) [ none ↦ s | some rest ↦ reverse rest ]) ≡ s
    go [] k = refl
    go (c ∷ r) k = ground arith

has_prefix_split : (m t u : Bytes) → has_prefix t m ≡ true → has_prefix (t ++ u) m ≡ true
has_prefix_split m t u h = elim (Option-cases (cut_prefix m t)) [
  | inl e ↦ unfold has_prefix in cc (e)
  | inr (r, e) ↦ rw (cut_prefix_sound m t {r = r} e, append_assoc) (has_prefix-append m (r ++ u))
]

-- A text that does not begin with an `a` is no statement.
parse_statement-inert :
    (n c : ℕ) (s : Bytes) (res : Parsed) → c ≢ b'a' → parse_statement n (c ∷ s) res ≡ res
unfolding parse_statement after_alias_keyword cut_prefix
parse_statement-inert n c s res h = ground arith

-- A line that begins with ink, is no `alias` and no begin marker, adds nothing.
pub parse_line-inert :
    (n c : ℕ) (s : Bytes) (res : Parsed)
    → IsInk c
    → c ≢ b'a'
    → Lacks 13 (c ∷ s)
    → has_prefix (c ∷ s) begin_marker ≡ false
    → parse_line n (c ∷ s) false res ≡ (false, res)
unfolding parse_line
parse_line-inert n c s res ink other one_line plain =
    let (rest, front) = trim_space-front c s ink in
    let (spaces, whole) = trim_space-split c s ink in
    let trimmed : has_prefix (trim_space (c ∷ s)) begin_marker ≡ false =
      elim (Bool-cases (has_prefix (trim_space (c ∷ s)) begin_marker)) [
        | inl e ↦ cc (
          has_prefix_split begin_marker (trim_space (c ∷ s)) spaces e,
          ap (λ u. has_prefix u begin_marker) whole,
        )
        | inr e ↦ e
      ] in
    let statement : parse_statement n (trim_space (c ∷ s)) res ≡ res =
      rw front (parse_statement-inert n c rest res other) in
    rw (trim_suffix-Lacks (c ∷ s) one_line, trimmed, statement) (ground arith)

index_where-append :
    (p : ℕ → Bool) (s t : Bytes) (j : ℕ)
    → All (λ c. p c ≡ false) s
    → index_where p (s ++ t) ≡ some j
    → length s ≤ j
unfolding index_where
index_where-append p [] t j h e = omega arith
index_where-append p (c ∷ s) t j h e = elim (Option-cases (index_where p (s ++ t))) [
  | inl f ↦ ground arith
  | inr (i, f) ↦ ground (arith, index_where-append p s t i h.1 f)
]

index_where_at :
    (p : ℕ → Bool) (s : Bytes) (c : ℕ) (t : Bytes)
    → All (λ d. p d ≡ false) s
    → p c ≡ true
    → index_where p (s ++ c ∷ t) ≡ some (length s)
unfolding index_where
index_where_at p [] c t h e = rw e
index_where_at p (d ∷ s) c t h e = rw (h.0, index_where_at p s c t h.1 e)

name_rest-plain :
    (s : Bytes)
    → All IsNameByte s
    → All (λ c. is_blank c ≡ false) s × All (λ c. (c == b'=') ≡ false) s
unfolding is_blank
name_rest-plain [] h = (tt, tt)
name_rest-plain (c ∷ s) h =
    let (b, e) = name_rest-plain s h.1 in ((ground arith, b), (ground arith, e))

-- A name holds no blank and no '='.
name-plain :
    (s : Bytes) → IsWord s → All (λ c. is_blank c ≡ false) s × All (λ c. (c == b'=') ≡ false) s
unfolding is_blank
name-plain [] h = (tt, tt)
name-plain (c ∷ s) h = let (b, e) = name_rest-plain s h.1 in ((ground arith, b), (ground arith, e))

no_blank_before :
    (name t : Bytes)
    → All (λ c. is_blank c ≡ false) name
    → blank_before (index_where is_blank (name ++ t)) (length name) ≡ false
unfolding blank_before
no_blank_before name t h = elim (Option-cases (index_where is_blank (name ++ t))) [
  | inl e ↦ rw e
  | inr (j, e) ↦ rw e (ground (arith, index_where-append is_blank name t j h e))
]

abbrev read_back : Bytes → Bytes → Assignment
read_back name command = record { name = name; value = command; note = []; rest = [] }

assignment_at-quoted :
    (name command : Bytes)
    → IsWord name
    → assignment_at (name ++ b'=' ∷ quote_posix command) (length name) ≡ ok (read_back name command)
unfolding assignment_at
assignment_at-quoted name command h =
    let q = b'=' ∷ quote_posix command in
    let value : lex_value (quote_posix command) ≡ (command, [], []) =
      ap lex_value (sym (append-nil (quote_posix command))) ∙ lex_value-quote_posix command [] tt in
    rw (take_segment name q, length_step name, drop_segment name b'=' (quote_posix command), value)
      (name_not_empty name h)
  where
    name_not_empty :
        (n : Bytes)
        → IsWord n
        → (if is_empty n then err empty_name else ok (read_back n command))
          ≡ ok (read_back n command)
    name_not_empty [] k = absurd k
    name_not_empty (c ∷ n) k = refl

parse_assignment_step :
    (s : Bytes) (eq : ℕ)
    → index_where (λ c. c == b'=') s ≡ some eq
    → blank_before (index_where is_blank s) eq ≡ false
    → parse_assignment s ≡ assignment_at s eq
unfolding parse_assignment
parse_assignment_step s eq h k = ground arith

parse_assignment-quoted :
    (name command : Bytes)
    → IsWord name
    → parse_assignment (name ++ b'=' ∷ quote_posix command) ≡ ok (read_back name command)
parse_assignment-quoted name command h =
    let (blanks, equals) = name-plain name h in
    let s = name ++ b'=' ∷ quote_posix command in
    parse_assignment_step s (length name)
      (index_where_at (λ c. c == b'=') name b'=' (quote_posix command) equals refl)
      (no_blank_before name (b'=' ∷ quote_posix command) blanks)
    ∙ assignment_at-quoted name command h

abbrev pub with_found : ℕ → Bytes → Bytes → Parsed → Parsed
with_found n name command res = record res {
  found = res.found ++ record { line = n; name = name; command = command; note = [] } ∷ [];
}

parse_definitions_step :
    (fuel n : ℕ) (line rest : Bytes) (res : Parsed) (a : Assignment)
    → trim_left_blank rest ≡ rest
    → is_empty rest ≡ false
    → has_prefix rest (codes "#") ≡ false
    → parse_assignment rest ≡ ok a
    → parse_definitions (suc fuel) n line rest res
      ≡ parse_definitions fuel n line a.rest (record res {
        found =
            res.found ++ record { line = n; name = a.name; command = a.value; note = a.note } ∷ [];
      })
unfolding parse_definitions
parse_definitions_step fuel n line rest res a t e p q = rw (t, e, p, q)

parse_definitions-nil :
    (fuel n : ℕ) (line : Bytes) (res : Parsed) → parse_definitions (suc fuel) n line [] res ≡ res
unfolding parse_definitions trim_left_blank
parse_definitions-nil fuel n line res = refl

-- A word begins with no blank, no dash and no hash.
word_front :
    (c : ℕ) (s : Bytes) → IsWord (c ∷ s) → (is_blank c ≡ false) × (c ≢ b'#') × (c ≢ b'-') × IsInk c
unfolding is_blank is_space
word_front c s h = ground arith

-- The definitions of one statement `name='command'`.
parse_definitions-quoted :
    (fuel n : ℕ) (line name command : Bytes) (res : Parsed)
    → IsWord name
    → parse_definitions (suc (suc fuel)) n line (name ++ b'=' ∷ quote_posix command) res
      ≡ with_found n name command res
parse_definitions-quoted fuel n line [] command res h = absurd h
parse_definitions-quoted fuel n line (c ∷ s) command res h =
    let (blank, hash, dash, ink) = word_front c s h in
    parse_definitions_step (suc fuel) n line (c ∷ s ++ b'=' ∷ quote_posix command) res
      (read_back (c ∷ s) command) (unfold trim_left_blank in rw blank) refl
      (unfold has_prefix cut_prefix in ground arith) (parse_assignment-quoted (c ∷ s) command h)
    ∙ parse_definitions-nil fuel n line (with_found n (c ∷ s) command res)

after_alias_keyword-front :
    (c : ℕ) (t : Bytes)
    → is_blank c ≡ false
    → after_alias_keyword (codes "alias " ++ c ∷ t) ≡ some (c ∷ t)
unfolding after_alias_keyword after_keyword cut_prefix trim_left_blank
after_alias_keyword-front c t h = rw h

strip_options-front : (c : ℕ) (t : Bytes) → c ≢ b'-' → strip_options (c ∷ t) ≡ ok (c ∷ t)
unfolding strip_options has_prefix cut_prefix
strip_options-front c t h = ground arith

parse_statement_step :
    (n : ℕ) (line rest body : Bytes) (res : Parsed)
    → after_alias_keyword line ≡ some rest
    → strip_options rest ≡ ok body
    → parse_statement n line res ≡ parse_definitions (suc (length body)) n line body res
unfolding parse_statement
parse_statement_step n line rest body res h k = ground arith

-- One statement that a rendered alias is.
parse_statement-quoted :
    (n : ℕ) (name command : Bytes) (res : Parsed)
    → IsWord name
    → parse_statement n (codes "alias " ++ (name ++ b'=' ∷ quote_posix command)) res
      ≡ with_found n name command res
parse_statement-quoted n [] command res h = absurd h
parse_statement-quoted n (c ∷ s) command res h =
    let (blank, hash, dash, ink) = word_front c s h in
    let t = s ++ b'=' ∷ quote_posix command in
    let line = codes "alias " ++ c ∷ t in
    parse_statement_step n line (c ∷ t) (c ∷ t) res (after_alias_keyword-front c t blank)
      (strip_options-front c t dash)
    ∙ parse_definitions-quoted (length t) n line (c ∷ s) command res h

IsInk-ends : IsInk b'a' × IsInk quote
unfolding is_space
IsInk-ends = ((omega arith, refl), (omega arith, refl))

definition_line_ends :
    (a : Alias)
    → definition_line a
      ≡ b'a'
          ∷ (codes "lias "
              ++ (a.name ++ (b'=' ∷ quote ∷ flat_map (substitute quote escaped_quote) a.command)))
        ++ quote ∷ []
unfolding definition_line
definition_line_ends a = rw (quote_posix_lem a.command) (simp append_assoc)

no_marker :
    (a : Alias)
    → (has_prefix (definition_line a) begin_marker ≡ false)
      × (has_prefix (definition_line a) end_marker ≡ false)
unfolding definition_line has_prefix cut_prefix begin_marker end_marker
no_marker a = (refl, refl)

definition_statement :
    (n : ℕ) (a : Alias) (res : Parsed)
    → IsSafeAlias a
    → parse_statement n (definition_line a) res ≡ with_found n a.name a.command res
unfolding definition_line
definition_statement n a res h = parse_statement-quoted n a.name a.command res h.word

-- The line begins and ends with ink, so trimming leaves it.
definition_line-trimmed :
    (a : Alias)
    → IsSafeAlias a
    → trim_space (trim_suffix (definition_line a) (13 ∷ [])) ≡ definition_line a
definition_line-trimmed a h =
    let one_line = (Lacks-of_IsOneLine (definition_line a) (definition_line-IsOneLine a h)).1 in
    ap trim_space (trim_suffix-Lacks (definition_line a) one_line)
    ∙ subst (λ l. trim_space l ≡ l) (sym (definition_line_ends a))
        (trim_space_id b'a'
          (codes "lias "
            ++ (a.name ++ (b'=' ∷ quote ∷ flat_map (substitute quote escaped_quote) a.command)))
          quote IsInk-ends.0 IsInk-ends.1)

pub parse_line-definition :
    (n : ℕ) (a : Alias) (res : Parsed)
    → IsSafeAlias a
    → parse_line n (definition_line a) false res ≡ (false, with_found n a.name a.command res)
unfolding parse_line
parse_line-definition n a res h =
    let (begins, ends) = no_marker a in
    rw (definition_line-trimmed a h, begins, ends, definition_statement n a res h)
