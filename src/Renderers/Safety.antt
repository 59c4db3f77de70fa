-- ===== src/Renderers/Safety.antt =====
-- A file that the renderer returns for bash or zsh has exactly its lines.
use aliasdeck.Prelude.{
  ℕ, ◌≡◌, refl, sym, ◌∙◌, inl, inr, true, List, [], ◌∷◌, ◌++◌, none, Bool-cases, Option-cases,
  arith,
}
use aliasdeck.Prelude.{ok}
use aliasdeck.Text.{Bytes, newline, same, split}
use aliasdeck.Text.Equality.{same_iff}
use aliasdeck.Text.Lines.{split-unlines}
use aliasdeck.Domain.Shell.{Shell, shell_zsh, shell_bash, is_posix}
use aliasdeck.Domain.Sort.{All-sort_aliases}
use aliasdeck.Domain.Resolved.{ResolvedConfig}
use aliasdeck.Validate.Issues.{Issue, config_issues, errors}
use aliasdeck.Validate.Clean.{IsCleanConfig, config_issues-IsCleanConfig, errors-config_issues}
use aliasdeck.Renderers.Render.{
  posix_renderer, renderer_for, lookup_renderer, first_issue, guard, renderer_text, render_with,
  render,
}
use aliasdeck.Renderers.PosixLines.{posix_lines, posix_text_lem}
use aliasdeck.Renderers.Posix.{posix_text}
use aliasdeck.Renderers.OneLine.{IsOneLine, All-Lacks}
use aliasdeck.Renderers.PosixOneLine.{IsSafeAlias, All-safe, posix_lines-IsOneLine}

first_issue-nil : (is : List Issue) → first_issue is ≡ none → is ≡ []
unfolding first_issue
first_issue-nil [] h = refl
first_issue-nil (i ∷ is) h = cc

-- The registry has the shell's own renderer for bash and for zsh.
renderer_for-posix : (sh : Shell) → is_posix sh ≡ true → renderer_for sh ≡ ok (posix_renderer sh)
unfolding renderer_for lookup_renderer is_posix same
renderer_for-posix sh h = elim (Bool-cases (same sh shell_zsh)) [
  | inl e ↦ rw ((same_iff sh shell_zsh).0 e)
  | inr e ↦ rw ((same_iff sh shell_bash).0 (ground (arith, e)))
]

-- What `Render` does for bash and zsh when it returns a text.
module _ (lower : ℕ → ℕ) (cfg : ResolvedConfig) where
  guard-IsCleanConfig : guard lower cfg ≡ none → IsCleanConfig lower cfg
  unfolding guard
  guard-IsCleanConfig h = config_issues-IsCleanConfig lower cfg (
      sym (errors-config_issues lower cfg)
      ∙ first_issue-nil (errors (config_issues lower cfg)) (ground arith))

  render_with-posix :
      {text : Bytes}
      → render_with lower (posix_renderer cfg.device.shell) cfg ≡ ok text
      → IsCleanConfig lower cfg × (text ≡ posix_text cfg.device.shell cfg)
  unfolding render_with renderer_text
  render_with-posix h = elim (Option-cases (guard lower cfg)) [
    | inl e ↦ (guard-IsCleanConfig e, ground (arith, e))
    | inr (r, e) ↦ cc (e)
  ]

  pub render-posix :
      {text : Bytes}
      → render lower cfg ≡ ok text
      → is_posix cfg.device.shell ≡ true
      → IsCleanConfig lower cfg × (text ≡ posix_text cfg.device.shell cfg)
  unfolding render
  render-posix {text} h p =
      render_with-posix {text = text} (ground (arith, renderer_for-posix cfg.device.shell p))

-- A file that `Render` writes for bash or zsh has the lines that it is meant to have and no other: no
-- device name, command or description begins a line of its own. The revision must be one line.
pub split-render :
    (lower : ℕ → ℕ) (cfg : ResolvedConfig) (text : Bytes)
    → render lower cfg ≡ ok text
    → is_posix cfg.device.shell ≡ true
    → IsOneLine cfg.revision
    → split newline text ≡ posix_lines cfg.device.shell cfg ++ [] ∷ []
split-render lower cfg text h p r =
    let (clean, e) = render-posix lower cfg {text = text} h p in
    let safe = All-safe cfg.device.shell cfg.aliases clean.aliases_ok in
    let lines =
      posix_lines-IsOneLine cfg.device.shell cfg clean.platform_ok clean.shell_ok
        (All-sort_aliases IsSafeAlias cfg.aliases safe) r in
    rw (e, posix_text_lem cfg.device.shell cfg)
      (split-unlines (posix_lines cfg.device.shell cfg)
        (All-Lacks (posix_lines cfg.device.shell cfg) lines))
