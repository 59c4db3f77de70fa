-- ===== src/Validate/Command.antt =====
-- internal/validate/command.go: commands and descriptions.
use aliasdeck.Prelude.{
  ℕ, Bool, ◌&&◌, ◌||◌, not, List, [], ◌∷◌, Option, none, some, is_empty, ltb, ◌==◌, if◌then◌else◌,
}
use aliasdeck.Text.{Bytes, tab, newline}
use aliasdeck.Utf8.{runes, count_runes, trim_space}

abbrev pub max_command_len : ℕ
max_command_len = 4096

abbrev pub max_description_len : ℕ
max_description_len = 256

-- The errors of `Command` and `Description`.
pub data TextError : Type 0 where
  blank overlong multiple_lines : TextError
  control_character : ℕ → TextError

-- A control character other than tab.
unfoldable pub is_bad_control : ℕ → Bool
is_bad_control r = not (r == tab) && (ltb r 0x20 || r == 0x7F)

unfoldable pub first_where : (ℕ → Bool) → List ℕ → Option ℕ
first_where p [] = none
first_where p (r ∷ rs) = let rest = first_where p rs in if p r then some r else rest

unfoldable pub first_control_rune : Bytes → Option ℕ
first_control_rune s = first_where is_bad_control (runes s)

unfoldable pub control_error : ℕ → TextError
control_error r = if r == newline || r == 13 then multiple_lines else control_character r

-- `Command`
unfoldable pub check_command : Bytes → Option TextError
check_command cmd =
    if is_empty (trim_space cmd)
    then some blank
    else if ltb max_command_len (count_runes cmd)
    then some overlong
    else elim (first_control_rune cmd) [ some r ↦ some (control_error r) | none ↦ none ]

-- `Description`
unfoldable pub check_description : Bytes → Option TextError
check_description desc =
    if is_empty desc
    then none
    else if ltb max_description_len (count_runes desc)
    then some overlong
    else elim (first_control_rune desc) [ some r ↦ some (control_character r) | none ↦ none ]
