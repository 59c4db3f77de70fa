-- ===== src/Importers/Termination.antt =====
-- The inner loop of `ParsePOSIX` ends: each round reads something, so its fuel is never used up.
use aliasdeck.Prelude.{
  ℕ, zero, suc, ◌+◌, ◌≤◌, ◌<◌, ◌≡◌, sym, ap, inl, inr, Bool, false, ◌||◌, [], ◌∷◌, ◌++◌, some,
  length, take, drop, drop_while, is_empty, Bool-cases, Option-cases, ◌==◌, arith,
}
use aliasdeck.Prelude.{ok, Result-cases}
use aliasdeck.Text.{Bytes, quote, index_where, trim_left_blank, is_blank}
use aliasdeck.Importers.Lexer.{lex_double_quoted, is_expandable, lex_from, lex_value}
use aliasdeck.Importers.Statement.{
  Parsed, Assignment, blank_before, assignment_at, parse_assignment, parse_definitions,
}

-- What is left behind a value is no longer than what was read.
length-lex_from :
    (k : ℕ) (b : Bytes) (e : Bool) (s : Bytes) → length (lex_from k b e s).2 ≤ length s
unfolding lex_from
length-lex_from zero b e [] = omega arith
length-lex_from (suc k) b e [] = omega arith
length-lex_from (suc k) b e (c ∷ s) = omega (arith, length-lex_from k b e s)
length-lex_from zero b e (c ∷ s) =
    let double_end = lex_double_quoted s in
    let double = length-lex_from double_end.2 (b ++ double_end.0) (e || double_end.1) s in
    let escape = length-lex_from 1 (b ++ take 1 s) e s in
    let plain = length-lex_from 0 (b ++ c ∷ []) (e || is_expandable c) s in
    elim (Option-cases (index_where (λ d. d == quote) s)) [
      | inl f ↦ ground (arith, f, double, escape, plain)
      | inr (j, f) ↦
          let single = length-lex_from (j + 1) (b ++ take j s) e s in
          ground (arith, f, single, double, escape, plain)
    ]

length-drop : (n : ℕ) (s : Bytes) → length (drop n s) ≤ length s
length-drop zero s = omega arith
length-drop (suc n) [] = omega arith
length-drop (suc n) (c ∷ s) = omega (arith, length-drop n s)

length-drop_while : (p : ℕ → Bool) (s : Bytes) → length (drop_while p s) ≤ length s
length-drop_while p [] = omega arith
length-drop_while p (c ∷ s) = ground (arith, length-drop_while p s)

drop-index :
    (p : ℕ → Bool) (s : Bytes) (i : ℕ)
    → index_where p s ≡ some i
    → length (drop (i + 1) s) < length s
unfolding index_where
drop-index p [] i h = cc
drop-index p (c ∷ s) i h =
    let step : i + 1 ≡ suc i = omega arith in
    rw (ap (λ m. drop m (c ∷ s)) step) (omega (arith, length-drop i s))

-- Each definition that is read leaves less to read.
length-parse_assignment :
    (s : Bytes) (a : Assignment) → parse_assignment s ≡ ok a → length a.rest < length s
unfolding parse_assignment assignment_at lex_value
length-parse_assignment s a h = elim (Option-cases (index_where (λ c. c == b'=') s)) [
  | inl e ↦ ground (arith, e)
  | inr (eq, e) ↦ elim (Bool-cases (blank_before (index_where is_blank s) eq)) [
    | inl f ↦ ground (arith, e, f)
    | inr f ↦ elim (Bool-cases (is_empty (take eq s))) [
      | inl g ↦ ground (arith, e, f, g)
      | inr g ↦
          let behind = drop (eq + 1) s in
          let left : (lex_from 0 [] false behind).2 ≡ a.rest = ground (arith, e, f, g) in
          rw (sym left)
            (omega (arith, length-lex_from 0 [] false behind, drop-index (λ c. c == b'=') s eq e))
    ]
  ]
]

length-trim_left_blank : (s : Bytes) → length (trim_left_blank s) ≤ length s
unfolding trim_left_blank
length-trim_left_blank s = length-drop_while is_blank s

-- The inner loop of `ParsePOSIX` ends by itself: with more fuel than the text has bytes, as it is called,
-- any further fuel changes nothing.
pub parse_definitions-fuel :
    (fuel extra line_no : ℕ) (line rest : Bytes) (res : Parsed)
    → length rest < fuel
    → parse_definitions (fuel + extra) line_no line rest res
      ≡ parse_definitions fuel line_no line rest res
unfolding parse_definitions
parse_definitions-fuel zero extra line_no line rest res h = absurd (omega arith)
parse_definitions-fuel (suc fuel) extra line_no line rest res h =
    let body = trim_left_blank rest in
    let shift : suc fuel + extra ≡ suc (fuel + extra) = omega arith in
    rw shift (elim (Result-cases (parse_assignment body)) [
      | inl (x, e) ↦ ground (arith, e)
      | inr (a, e) ↦
          let shorter : length a.rest < fuel =
            omega (arith, length-parse_assignment body a e, length-trim_left_blank rest) in
          let more : Parsed = record res {
            found =
                res.found
                ++ record { line = line_no; name = a.name; command = a.value; note = a.note } ∷ [];
          } in
          ground (arith, e, parse_definitions-fuel fuel extra line_no line a.rest more shorter)
    ])
