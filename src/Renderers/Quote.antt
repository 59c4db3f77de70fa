-- ===== src/Renderers/Quote.antt =====
-- internal/renderers: the quoting of a command, and the cleaning of a comment.
use aliasdeck.Prelude.{ℕ, ◌||◌, [], ◌∷◌, ◌++◌, ltb, ◌==◌, if◌then◌else◌}
use mathlib.Core.List.{flat_map}
use aliasdeck.Text.{Bytes, codes, quote, tab, replace_all}
use aliasdeck.Utf8.{runes, encode_rune, trim_space}

-- A closing quote, a quote behind a backslash, and an opening quote.
abbrev pub escaped_quote : Bytes
escaped_quote = codes "'\\''"

-- `quotePOSIX`
unfoldable pub quote_posix : Bytes → Bytes
quote_posix s = quote ∷ replace_all s (quote ∷ []) escaped_quote ++ quote ∷ []

-- `quotePowerShell`
unfoldable pub quote_powershell : Bytes → Bytes
quote_powershell s = quote ∷ replace_all s (quote ∷ []) (quote ∷ quote ∷ []) ++ quote ∷ []

-- The mapping of `sanitizeComment`, with the rune that it returns encoded; -1 drops the rune.
unfoldable pub clean_rune : ℕ → Bytes
clean_rune r =
    if r == tab then encode_rune 32 else if ltb r 0x20 || r == 0x7F then [] else encode_rune r

-- `sanitizeComment`
unfoldable pub sanitize_comment : Bytes → Bytes
sanitize_comment s = trim_space (flat_map clean_rune (runes s))
