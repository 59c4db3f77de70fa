-- ===== src/Renderers/Header.antt =====
-- internal/renderers/header.go: the banner of a generated file.
use aliasdeck.Prelude.{
  ℕ, zero, suc, ◌+◌, ◌/◌, ◌%◌, not, [], ◌∷◌, ◌++◌, is_empty, ◌==◌, if◌then◌else◌,
}
use aliasdeck.Text.{Bytes, codes, newline}
use aliasdeck.Domain.Resolved.{ResolvedConfig}
use aliasdeck.Renderers.Quote.{sanitize_comment}

-- A number in decimal; an `int` has at most 19 digits.
unfoldable pub digits : ℕ → ℕ → Bytes → Bytes
digits zero n out = out
digits (suc fuel) n out =
    let more = digits fuel (n / 10) ((b'0' + n % 10) ∷ out) in if n == 0 then out else more

unfoldable pub decimal : ℕ → Bytes
decimal n = if n == 0 then b'0' ∷ [] else digits 20 n []

-- The closure `line`: the comment marker, and the text behind a space unless it is empty.
unfoldable pub header_line : Bytes → Bytes → Bytes
header_line comment text = comment ++ ((if is_empty text then [] else 32 ∷ text) ++ newline ∷ [])

unfoldable pub device_text : ResolvedConfig → Bytes
device_text cfg =
    let name = sanitize_comment cfg.device.name in
    if not (is_empty name)
    then codes "Device:   "
      ++ (name
          ++ (codes " ("
              ++ (cfg.device.platform ++ (codes " / " ++ (cfg.device.shell ++ codes ")")))))
    else codes "Device:   " ++ (cfg.device.platform ++ (codes " / " ++ cfg.device.shell))

unfoldable pub revision_text : ResolvedConfig → Bytes
revision_text cfg =
    codes "Revision: " ++ (if is_empty cfg.revision then codes "(unknown)" else cfg.revision)

unfoldable pub count_text : ℕ → Bytes
count_text count = codes "Aliases:  " ++ decimal count

unfoldable pub banner_text : Bytes
banner_text = codes "Generated by AliasDeck. Do not edit."

unfoldable pub changes_text : Bytes
changes_text = codes "Changes made to this file are lost on the next `aliasdeck sync`."

unfoldable pub edit_text : Bytes
edit_text = codes "Edit your aliases.yaml, or use the AliasDeck web UI."

-- `writeHeader`
unfoldable pub header : Bytes → ResolvedConfig → ℕ → Bytes
header comment cfg count =
    header_line comment banner_text
    ++ (header_line comment []
        ++ (header_line comment (device_text cfg)
            ++ (header_line comment (revision_text cfg)
                ++ (header_line comment (count_text count)
                    ++ (header_line comment []
                        ++ (header_line comment changes_text ++ header_line comment edit_text))))))
