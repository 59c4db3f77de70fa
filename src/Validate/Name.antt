-- ===== src/Validate/Name.antt =====
-- internal/validate/name.go: names of aliases, and the words that no alias may take.
use aliasdeck.Prelude.{
  ℕ, Bool, true, false, ◌&&◌, ◌||◌, not, List, [], ◌∷◌, Option, none, some, all, is_empty, ltb, leb,
  ◌==◌, if◌then◌else◌,
}
use mathlib.Core.List.{map, flat_map}
use aliasdeck.Text.{Bytes, codes, same, contains_text, to_lower_byte}
use aliasdeck.Utf8.{runes, count_runes, encode_rune}
use aliasdeck.Domain.Shell.{Shell, shell_powershell}

abbrev pub max_name_len : ℕ
max_name_len = 64

-- The errors of `Name`.
pub data NameError : Type 0 where
  empty too_long bad_characters : NameError
  reserved : Bytes → NameError

unfoldable pub is_letter : ℕ → Bool
is_letter r = (leb b'a' r && leb r b'z') || (leb b'A' r && leb r b'Z') || r == b'_'

unfoldable pub is_inner : ℕ → Bool
is_inner r = (leb b'0' r && leb r b'9') || r == b'.' || r == b'-'

-- The loop of `validNameRunes`; the first argument says whether `i == 0`.
unfoldable pub valid_runes_from : Bool → List ℕ → Bool
valid_runes_from first [] = true
valid_runes_from first (r ∷ rs) =
    let rest = valid_runes_from false rs in
    if is_letter r then rest else if is_inner r then (if first then false else rest) else false

unfoldable pub valid_name_runes : Bytes → Bool
valid_name_runes name = valid_runes_from true (runes name)

unfoldable pub posix_reserved : List Bytes
posix_reserved = map codes (
    "case" ∷ "coproc" ∷ "declare" ∷ "do" ∷ "done" ∷ "elif" ∷ "else" ∷ "end" ∷ "esac" ∷ "fi" ∷ "for"
    ∷ "foreach" ∷ "function" ∷ "if" ∷ "in" ∷ "nocorrect" ∷ "repeat" ∷ "select" ∷ "then" ∷ "time"
    ∷ "until" ∷ "while" ∷ [])

unfoldable pub powershell_reserved : List Bytes
powershell_reserved = map codes (
    "begin" ∷ "break" ∷ "catch" ∷ "class" ∷ "continue" ∷ "data" ∷ "define" ∷ "do" ∷ "dynamicparam"
    ∷ "else" ∷ "elseif" ∷ "end" ∷ "enum" ∷ "exit" ∷ "filter" ∷ "finally" ∷ "for" ∷ "foreach"
    ∷ "from" ∷ "function" ∷ "hidden" ∷ "if" ∷ "in" ∷ "param" ∷ "process" ∷ "return" ∷ "static"
    ∷ "switch" ∷ "throw" ∷ "trap" ∷ "try" ∷ "until" ∷ "using" ∷ "var" ∷ "while" ∷ [])

-- `strings.ToLower` of an ASCII text.
unfoldable pub to_lower_ascii : Bytes → Bytes
to_lower_ascii = map to_lower_byte

-- `strings.ToLower`, where `lower` is the table of `unicode.ToLower` beyond ASCII.
unfoldable pub lower_rune : (ℕ → ℕ) → ℕ → ℕ
lower_rune lower r = if ltb r 0x80 then to_lower_byte r else lower r

unfoldable pub to_lower : (ℕ → ℕ) → Bytes → Bytes
to_lower lower s =
    if all (λ c. ltb c 0x80) s
    then to_lower_ascii s
    else flat_map (λ r. encode_rune (lower_rune lower r)) (runes s)

-- The word that was looked up, if it is reserved. `Name` asks only for names that are ASCII.
unfoldable pub is_reserved_word : Bytes → Shell → Option Bytes
is_reserved_word name sh =
    if same sh shell_powershell
    then (let lower = to_lower_ascii name in
        if contains_text powershell_reserved lower then some lower else none)
    else if contains_text posix_reserved name
    then some name
    else none

-- `Name`: `none` is Go's nil error.
unfoldable pub check_name : Bytes → Shell → Option NameError
check_name name sh =
    if is_empty name
    then some empty
    else if ltb max_name_len (count_runes name)
    then some too_long
    else if not (valid_name_runes name)
    then some bad_characters
    else elim (is_reserved_word name sh) [ some word ↦ some (reserved word) | none ↦ none ]
