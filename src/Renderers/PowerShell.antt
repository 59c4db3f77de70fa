-- ===== src/Renderers/PowerShell.antt =====
-- internal/renderers/powershell.go: a function for each alias, which compiles its command when it is
-- called.
use aliasdeck.Prelude.{◌∷◌, ◌++◌, length}
use mathlib.Core.List.{flat_map}
use aliasdeck.Text.{Bytes, codes, newline}
use aliasdeck.Domain.Alias.{Alias}
use aliasdeck.Domain.Resolved.{ResolvedConfig, sort_aliases}
use aliasdeck.Renderers.Quote.{quote_powershell}
use aliasdeck.Renderers.Header.{header}
use aliasdeck.Renderers.Posix.{description_line}

unfoldable pub function_block : Alias → Bytes
function_block a =
    newline ∷ description_line a.description
    ++ (codes "function "
        ++ (a.name
            ++ (codes " {\n"
                ++ (codes "    $__aliasdeck_cmd = "
                    ++ (quote_powershell a.command
                        ++ (newline
                            ∷ (codes
                                  "    & ([scriptblock]::Create($__aliasdeck_cmd + ' @args')) @args\n"
                                ++ codes "}\n")))))))

-- `powershellRenderer.Render` behind its guard.
unfoldable pub powershell_text : ResolvedConfig → Bytes
powershell_text cfg =
    let aliases = sort_aliases cfg.aliases in
    header (codes "#") cfg (length aliases) ++ flat_map function_block aliases
