-- ===== src/Validate/Filter.antt =====
-- internal/validate/validate.go: `FilterValid`.
use aliasdeck.Prelude.{ℕ, not, List, [], ◌∷◌, is_empty, if◌then◌else◌}
use aliasdeck.Text.{Bytes, contains_text}
use aliasdeck.Domain.Alias.{Alias}
use aliasdeck.Domain.Resolved.{ResolvedConfig}
use aliasdeck.Validate.Issues.{Issues, config_issues, errors}

-- The names that the errors block; an error with no name blocks nothing.
unfoldable pub blocked_names : Issues → List Bytes
blocked_names [] = []
blocked_names (i ∷ is) =
    let rest = blocked_names is in if not (is_empty i.alias_name) then i.alias_name ∷ rest else rest

unfoldable pub filter_aliases : List Bytes → List Alias → List Alias
filter_aliases blocked [] = []
filter_aliases blocked (a ∷ aliases) =
    let rest = filter_aliases blocked aliases in
    if contains_text blocked a.name then rest else a ∷ rest

unfoldable pub filter_valid : (ℕ → ℕ) → ResolvedConfig → ResolvedConfig × Issues
filter_valid lower cfg =
    let issues = config_issues lower cfg in
    (record cfg { aliases = filter_aliases (blocked_names (errors issues)) cfg.aliases }, issues)
