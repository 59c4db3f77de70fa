-- ===== src/Renderers/Render.antt =====
-- internal/renderers/renderer.go: the registry, the guard, and the entry point.
use aliasdeck.Prelude.{ℕ, List, [], ◌∷◌, Option, none, some, if◌then◌else◌}
use aliasdeck.Prelude.{Result, ok, err}
use aliasdeck.Text.{Bytes, same}
use aliasdeck.Domain.Shell.{Shell, shell_zsh, shell_bash, shell_powershell}
use aliasdeck.Domain.Resolved.{ResolvedConfig}
use aliasdeck.Validate.Issues.{Issue, Issues, errors, config_issues}
use aliasdeck.Renderers.Posix.{posix_text}
use aliasdeck.Renderers.PowerShell.{powershell_text}

-- The values of the interface `Renderer`.
pub data Renderer : Type 0 where
  posix_renderer : Shell → Renderer
  powershell_renderer : Renderer

pub data RenderError : Type 0 where
  unsupported_shell : Shell → RenderError
  invalid_configuration : Issue → RenderError

-- `Renderer.Shell`
unfoldable pub renderer_shell : Renderer → Shell
renderer_shell (posix_renderer sh) = sh
renderer_shell powershell_renderer = shell_powershell

abbrev pub registry : List (Shell × Renderer)
registry =
    (shell_zsh, posix_renderer shell_zsh)
    ∷ (shell_bash, posix_renderer shell_bash)
    ∷ (shell_powershell, powershell_renderer)
    ∷ []

unfoldable pub lookup_renderer : List (Shell × Renderer) → Shell → Option Renderer
lookup_renderer [] sh = none
lookup_renderer ((key, r) ∷ rest) sh =
    let later = lookup_renderer rest sh in if same key sh then some r else later

-- `For`
unfoldable pub renderer_for : Shell → Result RenderError Renderer
renderer_for sh = elim (lookup_renderer registry sh) [
  | some r ↦ ok r
  | none ↦ err (unsupported_shell sh)
]

unfoldable pub first_issue : Issues → Option Issue
first_issue [] = none
first_issue (i ∷ is) = some i

-- `guard`: the error that it returns, if any.
unfoldable pub guard : (ℕ → ℕ) → ResolvedConfig → Option RenderError
guard lower cfg = elim (first_issue (errors (config_issues lower cfg))) [
  | some i ↦ some (invalid_configuration i)
  | none ↦ none
]

unfoldable pub renderer_text : Renderer → ResolvedConfig → Bytes
renderer_text (posix_renderer sh) cfg = posix_text sh cfg
renderer_text powershell_renderer cfg = powershell_text cfg

-- `Renderer.Render`
unfoldable pub render_with : (ℕ → ℕ) → Renderer → ResolvedConfig → Result RenderError Bytes
render_with lower r cfg = elim (guard lower cfg) [
  | some e ↦ err e
  | none ↦ ok (renderer_text r cfg)
]

-- `Render`
unfoldable pub render : (ℕ → ℕ) → ResolvedConfig → Result RenderError Bytes
render lower cfg = elim (renderer_for cfg.device.shell) [
  | err e ↦ err e
  | ok r ↦ render_with lower r cfg
]
