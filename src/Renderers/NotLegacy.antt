-- ===== src/Renderers/NotLegacy.antt =====
-- A file that is rendered now is never taken for one of an earlier version.
use aliasdeck.Prelude.{
  ℕ, zero, suc, ◌≡◌, refl, inl, inr, true, List, [], ◌∷◌, Option, none, Option-cases, arith,
}
use aliasdeck.Prelude.{ok}
use aliasdeck.Text.{Bytes, codes, newline, split, cut_prefix, has_prefix}
use aliasdeck.Domain.Shell.{Shell, is_posix}
use aliasdeck.Domain.Resolved.{ResolvedConfig}
use aliasdeck.Renderers.Legacy.{parse_legacy_alias_count, parse_legacy_alias_line}
use aliasdeck.Renderers.LegacyFile.{
  skip_description, take_alias, take_block, at_end, legacy_names, legacy_lines,
  parse_legacy_posix_aliases,
}
use aliasdeck.Renderers.Render.{render}
use aliasdeck.Renderers.OneLine.{IsOneLine}
use aliasdeck.Renderers.PosixLines.{header_lines, unalias_lines, posix_lines}
use aliasdeck.Renderers.Safety.{split-render}

-- The line of the guard is no alias.
abbrev pub guard_line : Bytes
guard_line = codes "if [ -n \"${ALIASDECK_MANAGED_ALIAS_NAMES-}\" ]; then"

take_block-guard_line :
    (sh : Shell) (last : Option Bytes) (l : Bytes) (rest : List Bytes)
    → take_block sh last ([] ∷ guard_line ∷ l ∷ rest) ≡ none
unfolding take_block skip_description take_alias parse_legacy_alias_line has_prefix cut_prefix
take_block-guard_line sh last l rest = refl

legacy_names-guard_line :
    (sh : Shell) (n : ℕ) (last : Option Bytes) (l : Bytes) (rest : List Bytes)
    → legacy_names sh n last ([] ∷ guard_line ∷ l ∷ rest) ≡ none
unfolding legacy_names at_end
legacy_names-guard_line sh zero last l rest = refl
legacy_names-guard_line sh (suc n) last l rest = rw (take_block-guard_line sh last l rest) refl

legacy_lines-guard_line :
    (sh : Shell) (l0 l1 l2 l3 l4 l5 l6 l7 l : Bytes) (rest : List Bytes)
    → legacy_lines sh (l0 ∷ l1 ∷ l2 ∷ l3 ∷ l4 ∷ l5 ∷ l6 ∷ l7 ∷ [] ∷ guard_line ∷ l ∷ rest) ≡ none
unfolding legacy_lines
legacy_lines-guard_line sh l0 l1 l2 l3 l4 l5 l6 l7 l rest =
    elim (Option-cases (parse_legacy_alias_count l4)) [
      | inl e ↦ ground (arith, e)
      | inr (count, e) ↦ ground (arith, e, legacy_names-guard_line sh count none l rest)
    ]

-- The strict reader of earlier files takes no names from a text that is rendered for bash or zsh, where the
-- revision is one line.
pub parse_legacy-render :
    (lower : ℕ → ℕ) (cfg : ResolvedConfig) (text : Bytes) (sh : Shell)
    → render lower cfg ≡ ok text
    → is_posix cfg.device.shell ≡ true
    → IsOneLine cfg.revision
    → parse_legacy_posix_aliases text sh ≡ none
unfolding parse_legacy_posix_aliases posix_lines header_lines unalias_lines
parse_legacy-render lower cfg text sh h p r =
    let lines = split-render lower cfg text h p r in
    let refused : legacy_lines sh (split newline text) ≡ none =
      rw lines (legacy_lines-guard_line sh _ _ _ _ _ _ _ _ _ _) in
    ground (arith, refused)
