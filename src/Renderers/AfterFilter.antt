-- ===== src/Renderers/AfterFilter.antt =====
-- Rendering what `FilterValid` left.
use aliasdeck.Prelude.{ℕ, ◌≤◌, ◌≡◌, refl, inl, inr, true, [], none, length, Bool-cases}
use aliasdeck.Prelude.{ok}
use aliasdeck.Text.{Bytes, same}
use aliasdeck.Text.Equality.{same_iff}
use aliasdeck.Domain.Shell.{
  Shell, shell_zsh, shell_bash, shell_powershell, platform_valid, shell_valid,
}
use aliasdeck.Domain.Resolved.{ResolvedConfig}
use aliasdeck.Validate.Issues.{config_issues, errors, max_aliases}
use aliasdeck.Validate.Filter.{filter_valid}
use aliasdeck.Validate.Kept.{AllNamed, config_issues-filter_valid}
use aliasdeck.Renderers.Render.{
  Renderer, renderer_for, lookup_renderer, first_issue, guard, renderer_text, render_with, render,
}

-- The registry has a renderer for every known shell.
renderer_for-known :
    (sh : Shell) → shell_valid sh ≡ true → (r : Renderer) × (renderer_for sh ≡ ok r)
unfolding renderer_for lookup_renderer shell_valid same
renderer_for-known sh h = elim (Bool-cases (same sh shell_zsh)) [
  | inl e ↦ rw ((same_iff sh shell_zsh).0 e) (_, refl)
  | inr e ↦ elim (Bool-cases (same sh shell_bash)) [
    | inl f ↦ rw ((same_iff sh shell_bash).0 f) (_, refl)
    | inr f ↦ rw ((same_iff sh shell_powershell).0 (rw (e, f) at h)) (_, refl)
  ]
]

guard-clean :
    (lower : ℕ → ℕ) (cfg : ResolvedConfig) → config_issues lower cfg ≡ [] → guard lower cfg ≡ none
unfolding guard errors first_issue
guard-clean lower cfg h = rw (guard, h)

render-clean :
    (lower : ℕ → ℕ) (cfg : ResolvedConfig)
    → shell_valid cfg.device.shell ≡ true
    → config_issues lower cfg ≡ []
    → (text : Bytes) × (render lower cfg ≡ ok text)
unfolding render render_with
render-clean lower cfg s h =
    let (r, e) = renderer_for-known cfg.device.shell s in
    (renderer_text r cfg, rw (render, e, render_with, guard-clean lower cfg h))

device-filter_valid :
    (lower : ℕ → ℕ) (cfg : ResolvedConfig) → (filter_valid lower cfg).0.device ≡ cfg.device
unfolding filter_valid
device-filter_valid lower cfg = refl

-- `Render` accepts whatever `FilterValid` leaves of a configuration with a known platform and shell, at most
-- 5000 aliases and a name for every alias: it returns a text.
pub render-filter_valid :
    (lower : ℕ → ℕ) (cfg : ResolvedConfig)
    → platform_valid cfg.device.platform ≡ true
    → shell_valid cfg.device.shell ≡ true
    → length cfg.aliases ≤ max_aliases
    → AllNamed cfg.aliases
    → (text : Bytes) × (render lower (filter_valid lower cfg).0 ≡ ok text)
unfolding filter_valid
render-filter_valid lower cfg p s few names =
    render-clean lower (filter_valid lower cfg).0 s
      (config_issues-filter_valid lower cfg p s few names)
