-- ===== src/Importers/Posix.antt =====
-- internal/importers/posix.go: `ParsePOSIX`.
use aliasdeck.Prelude.{ℕ, ◌+◌, Bool, true, false, List, [], ◌∷◌, if◌then◌else◌}
use aliasdeck.Text.{Bytes, codes, newline, split, has_prefix, trim_suffix}
use aliasdeck.Utf8.{trim_space}
use aliasdeck.Importers.Statement.{Parsed, parse_statement}

unfoldable pub begin_marker : Bytes
begin_marker = codes "# >>> aliasdeck >>>"

unfoldable pub end_marker : Bytes
end_marker = codes "# <<< aliasdeck <<<"

-- One round of the loop: the flag `inOwnBlock`, and the result so far.
unfoldable pub parse_line : ℕ → Bytes → Bool → Parsed → Bool × Parsed
parse_line line_no raw in_own_block res =
    let line = trim_space (trim_suffix raw (codes "\r")) in
    if has_prefix line begin_marker
    then (true, res)
    else if has_prefix line end_marker
    then (false, res)
    else if in_own_block
    then (in_own_block, res)
    else (in_own_block, parse_statement line_no line res)

-- The loop over the lines; the first argument is the number of the last line.
unfoldable pub parse_lines : ℕ → List Bytes → Bool → Parsed → Parsed
parse_lines i [] in_own_block res = res
parse_lines i (raw ∷ lines) in_own_block res =
    let (in_own_block', res') = parse_line (i + 1) raw in_own_block res in
    parse_lines (i + 1) lines in_own_block' res'

-- `ParsePOSIX`
unfoldable pub parse_posix : Bytes → Parsed
parse_posix text = parse_lines 0 (split newline text) false (record { found = []; skipped = [] })
