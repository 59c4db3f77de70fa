-- ===== src/Renderers/Posix.antt =====
-- internal/renderers/posix.go: `alias name='command'` lines for bash and zsh.
use aliasdeck.Prelude.{not, List, [], ◌∷◌, ◌++◌, length, is_empty, if◌then◌else◌}
use mathlib.Core.List.{map, flat_map}
use aliasdeck.Text.{Bytes, codes, newline, same, join}
use aliasdeck.Domain.Shell.{Shell, shell_zsh}
use aliasdeck.Domain.Alias.{Alias}
use aliasdeck.Domain.Resolved.{ResolvedConfig, sort_aliases}
use aliasdeck.Renderers.Quote.{quote_posix, sanitize_comment}
use aliasdeck.Renderers.Header.{header}

-- The lines that remove the aliases of the file that was sourced before.
unfoldable pub unalias_block : Bytes
unalias_block =
    codes "\nif [ -n \"${ALIASDECK_MANAGED_ALIAS_NAMES-}\" ]; then\n"
    ++ (codes "  for aliasdeck_managed_name in $ALIASDECK_MANAGED_ALIAS_NAMES; do\n"
        ++ (codes "    unalias -- \"$aliasdeck_managed_name\" 2>/dev/null || true\n"
            ++ (codes "  done\n" ++ codes "fi\n")))

unfoldable pub managed_names : List Alias → Bytes
managed_names aliases =
    codes "ALIASDECK_MANAGED_ALIAS_NAMES="
    ++ (quote_posix (join (codes " ") (map (λ a. a.name) aliases)) ++ newline ∷ [])

unfoldable pub unset_line : Bytes
unset_line = codes "unset aliasdeck_managed_name\n"

-- The comment of an alias, if its description leaves one.
unfoldable pub description_line : Bytes → Bytes
description_line description =
    let desc = sanitize_comment description in
    if not (is_empty desc) then codes "# " ++ (desc ++ newline ∷ []) else []

unfoldable pub alias_line : Alias → Bytes
alias_line a = codes "alias " ++ (a.name ++ (codes "=" ++ (quote_posix a.command ++ newline ∷ [])))

unfoldable pub alias_block : Alias → Bytes
alias_block a = newline ∷ description_line a.description ++ alias_line a

-- The prompt hook of zsh.
unfoldable pub zsh_hook : Bytes
zsh_hook =
    codes "\ntypeset -g ALIASDECK_GENERATED_ALIAS_FILE=${${(%):-%N}:A}\n"
    ++ (codes "_aliasdeck_reload_generated_aliases() {\n"
        ++ (codes
              "  [ -r \"$ALIASDECK_GENERATED_ALIAS_FILE\" ] && . \"$ALIASDECK_GENERATED_ALIAS_FILE\"\n"
            ++ (codes "}\n"
                ++ (codes "autoload -Uz add-zsh-hook\n"
                    ++ (codes
                          "add-zsh-hook -d precmd _aliasdeck_reload_generated_aliases 2>/dev/null || true\n"
                        ++ codes "add-zsh-hook precmd _aliasdeck_reload_generated_aliases\n")))))

-- `posixRenderer.Render` behind its guard.
unfoldable pub posix_text : Shell → ResolvedConfig → Bytes
posix_text sh cfg =
    let aliases = sort_aliases cfg.aliases in
    header (codes "#") cfg (length aliases)
    ++ (unalias_block
        ++ (managed_names aliases
            ++ (unset_line
                ++ (flat_map alias_block aliases ++ (if same sh shell_zsh then zsh_hook else [])))))
