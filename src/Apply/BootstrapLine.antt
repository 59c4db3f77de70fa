-- ===== src/Apply/BootstrapLine.antt =====
-- internal/apply/bootstrap.go: `BootstrapLine` and its helpers. The package path/filepath belongs to
-- the platform that the program runs on, and is a parameter.
use aliasdeck.Prelude.{
  ℕ, zero, suc, ◌+◌, ◌-◌, ◌/◌, ◌%◌, Bool, ◌&&◌, ◌||◌, [], ◌∷◌, ◌++◌, Option, none, some, drop,
  is_empty, ltb, leb, ◌==◌, if◌then◌else◌,
}
use mathlib.Core.List.{flat_map}
use aliasdeck.Text.{Bytes, codes, same, has_prefix}
use aliasdeck.Utf8.{Rune, rune_error, decode, encode_rune, runes}
use aliasdeck.Domain.Shell.{Shell, shell_zsh, shell_powershell}

-- What the code uses of path/filepath.
pub record PathOps : Type 0 where
  pub relative : Bytes → Bytes → Option Bytes
  pub to_slash : Bytes → Bytes
  pub separator : Bytes

unfoldable pub hex_digit : ℕ → ℕ
hex_digit n = if ltb n 10 then b'0' + n else b'a' + (n - 10)

-- `n` hexadecimal digits.
unfoldable pub hex : ℕ → ℕ → Bytes
unfolding hex_digit
hex zero r = []
hex (suc n) r = hex n (r / 16) ++ hex_digit (r % 16) ∷ []

-- One rune in a string of `%q`; `printable` is `strconv.IsPrint` beyond ASCII.
unfoldable pub quote_rune : (ℕ → Bool) → Rune → Bytes
quote_rune printable r =
    let v = r.value in
    if v == rune_error && is_empty (drop 1 r.bytes)
    then codes "\\x" ++ flat_map (hex 2) r.bytes
    else if v == b'"' || v == b'\\'
    then b'\\' ∷ v ∷ []
    else if (if ltb v 0x80 then leb 32 v && ltb v 127 else printable v)
    then r.bytes
    else if v == 7
    then codes "\\a"
    else if v == 8
    then codes "\\b"
    else if v == 12
    then codes "\\f"
    else if v == 10
    then codes "\\n"
    else if v == 13
    then codes "\\r"
    else if v == 9
    then codes "\\t"
    else if v == 11
    then codes "\\v"
    else if ltb v 32 || v == 127
    then codes "\\x" ++ hex 2 v
    else if ltb v 0x10000
    then codes "\\u" ++ hex 4 v
    else codes "\\U" ++ hex 8 v

-- `%q`
unfoldable pub go_quote : (ℕ → Bool) → Bytes → Bytes
go_quote printable s = b'"' ∷ flat_map (quote_rune printable) (decode s) ++ b'"' ∷ []

-- `relUnderHome`
unfoldable pub rel_under_home : PathOps → Bytes → Bytes → Option Bytes
rel_under_home paths generated_path home = elim (paths.relative home generated_path) [
  | none ↦ none
  | some rel ↦
      if same rel (codes "..") || has_prefix rel (codes ".." ++ paths.separator)
      then none
      else some rel
]

-- `homeRelativeDisplay`
unfoldable pub home_relative_display : PathOps → Bytes → Bytes → Bytes
home_relative_display paths generated_path home =
    if is_empty home then generated_path else elim (rel_under_home paths generated_path home) [
      | none ↦ generated_path
      | some rel ↦ codes "$HOME/" ++ paths.to_slash rel
    ]

unfoldable pub escape_rune : ℕ → Bytes
escape_rune r =
    if r == b'`'
    then codes "``"
    else if r == b'"'
    then codes "\"\""
    else if r == b'$'
    then codes "`$"
    else encode_rune r

-- `escapePowerShellDoubleQuoted`
unfoldable pub escape_power_shell_double_quoted : Bytes → Bytes
escape_power_shell_double_quoted s = flat_map escape_rune (runes s)

-- `bootstrapLinePowerShell`
unfoldable pub bootstrap_line_power_shell : PathOps → Bytes → Bytes → Bytes
bootstrap_line_power_shell paths generated_path home =
    let plain = escape_power_shell_double_quoted generated_path in
    let display = if is_empty home then plain else elim (rel_under_home paths generated_path home) [
      | none ↦ plain
      | some rel ↦ codes "$HOME/" ++ escape_power_shell_double_quoted (paths.to_slash rel)
    ] in
    codes "if (Test-Path -LiteralPath \""
    ++ (display ++ (codes "\") { . \"" ++ (display ++ codes "\" }")))

-- The shell function of bash and zsh, around the quoted path.
unfoldable pub shell_function : Bytes → Bytes
shell_function quoted =
    codes "aliasdeck() {\n"
    ++ (codes "  local aliasdeck_status=0\n"
        ++ (codes "  command aliasdeck \"$@\" || aliasdeck_status=$?\n"
            ++ (codes
                  "  if [ \"$aliasdeck_status\" -eq 0 ] && [ \"$#\" -gt 0 ] && [ \"$1\" = sync ] && [ -f "
                ++ (quoted
                    ++ (codes " ]; then\n"
                        ++ (codes "    . "
                            ++ (quoted
                                ++ (codes "\n  fi\n"
                                    ++ (codes "  return \"$aliasdeck_status\"\n"
                                        ++ codes "}")))))))))

-- `BootstrapLine`
unfoldable pub bootstrap_line : PathOps → (ℕ → Bool) → Shell → Bytes → Bytes → Bytes
bootstrap_line paths printable sh generated_path home =
    let quoted = go_quote printable (home_relative_display paths generated_path home) in
    if same sh shell_powershell
    then bootstrap_line_power_shell paths generated_path home
    else if same sh shell_zsh
    then shell_function quoted ++ (codes "\n[ ! -f " ++ (quoted ++ (codes " ] || . " ++ quoted)))
    else shell_function quoted
