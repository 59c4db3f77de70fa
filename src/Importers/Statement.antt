-- ===== src/Importers/Statement.antt =====
-- internal/importers/posix.go: one `alias` statement.
use aliasdeck.Prelude.{
  ℕ, zero, suc, ◌+◌, Bool, false, ◌||◌, not, List, [], ◌∷◌, ◌++◌, Option, none, some, length, take,
  drop, is_empty, ltb, ◌==◌, if◌then◌else◌, ◌>>=◌,
}
use aliasdeck.Prelude.{Result, ok, err}
use aliasdeck.Text.{
  Bytes, codes, same, cut_prefix, has_prefix, is_blank, trim_left_blank, index_where,
}
use aliasdeck.Importers.Lexer.{lex_value}

-- Why a line was skipped, with the text that the message quotes.
pub data Reason : Type 0 where
  option_used : Bytes → Reason
  queries_alias : Bytes → Reason
  empty_name : Reason

pub record Found : Type 0 where
  pub line : ℕ
  pub name : Bytes
  pub command : Bytes
  pub note : Bytes

pub record Skipped : Type 0 where
  pub line : ℕ
  pub text : Bytes
  pub reason : Reason

-- `Result` of the package.
pub record Parsed : Type 0 where
  pub found : List Found
  pub skipped : List Skipped

-- `afterAliasKeyword`
unfoldable pub after_keyword : Bytes → Option Bytes
after_keyword [] = none
after_keyword (c ∷ rest) = if not (is_blank c) then none else some (trim_left_blank (c ∷ rest))

unfoldable pub after_alias_keyword : Bytes → Option Bytes
after_alias_keyword line = do rest ← cut_prefix (codes "alias") line; after_keyword rest

-- The word at the front: up to the first blank.
unfoldable pub first_word : Bytes → Bytes
first_word s = elim (index_where is_blank s) [ none ↦ s | some i ↦ take i s ]

-- `stripOptions`: its loop returns in its first round.
unfoldable pub strip_options : Bytes → Result Reason Bytes
strip_options s =
    let field = first_word s in
    if has_prefix s (codes "-")
    then if same field (codes "--")
      then ok (trim_left_blank (drop (length field) s))
      else err (option_used field)
    else ok s

pub record Assignment : Type 0 where
  pub name : Bytes
  pub value : Bytes
  pub note : Bytes
  pub rest : Bytes

-- Whether a blank stands before the '='.
unfoldable pub blank_before : Option ℕ → ℕ → Bool
blank_before none eq = false
blank_before (some sp) eq = ltb sp eq

unfoldable pub assignment_at : Bytes → ℕ → Result Reason Assignment
assignment_at s eq =
    if is_empty (take eq s)
    then err empty_name
    else let (value, note, rest) = lex_value (drop (eq + 1) s) in
      ok (record { name = take eq s; value = value; note = note; rest = rest })

-- `parseAssignment`
unfoldable pub parse_assignment : Bytes → Result Reason Assignment
parse_assignment s = elim (index_where (λ c. c == b'=') s) [
  | none ↦ err (queries_alias (first_word s))
  | some eq ↦
      if blank_before (index_where is_blank s) eq
      then err (queries_alias (first_word s))
      else assignment_at s eq
]

-- The inner loop of `ParsePOSIX` over the definitions of one statement.
unfoldable pub parse_definitions : ℕ → ℕ → Bytes → Bytes → Parsed → Parsed
parse_definitions zero line_no line rest res = res
parse_definitions (suc fuel) line_no line rest res =
    let body = trim_left_blank rest in
    let one = parse_assignment body in
    let outcome : Parsed = elim one [
      | err reason ↦ record res {
        skipped = res.skipped ++ record { line = line_no; text = line; reason = reason } ∷ [];
      }
      | ok a ↦ parse_definitions fuel line_no line a.rest (record res {
        found =
            res.found
            ++ record { line = line_no; name = a.name; command = a.value; note = a.note } ∷ [];
      })
    ] in
    if is_empty body || has_prefix body (codes "#") then res else outcome

-- What one line adds to the result; the fuel exceeds the length of the text.
unfoldable pub parse_statement : ℕ → Bytes → Parsed → Parsed
parse_statement line_no line res = elim (after_alias_keyword line) [
  | none ↦ res
  | some rest ↦ elim (strip_options rest) [
    | err reason ↦ record res {
      skipped = res.skipped ++ record { line = line_no; text = line; reason = reason } ∷ [];
    }
    | ok body ↦ parse_definitions (suc (length body)) line_no line body res
  ]
]
