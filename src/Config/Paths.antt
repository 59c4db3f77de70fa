-- ===== src/Config/Paths.antt =====
-- internal/config/paths.go. The environment, the home directory and path/filepath are parameters.
use aliasdeck.Prelude.{Bool, ◌||◌, not, [], Option, none, some, is_empty, if◌then◌else◌, is_some}
use aliasdeck.Text.{Bytes, codes, same, cut_prefix, contains, replace_all}

-- `Env`, with `filepath.Join` and `filepath.FromSlash`; `none` is an unknown home.
pub record Env : Type 0 where
  pub getenv : Bytes → Bytes
  pub home_dir : Option Bytes
  pub join : Bytes → Bytes → Bytes
  pub from_slash : Bytes → Bytes

-- `tildePrefixRest`
unfoldable pub tilde_prefix_rest : Bytes → Option Bytes
unfolding cut_prefix
tilde_prefix_rest path = elim (cut_prefix (codes "~/") path) [
  | some rest ↦ some rest
  | none ↦ cut_prefix (codes "~\\") path
]

-- `ExpandPath` with the home at hand.
unfoldable pub expand_home : Env → Bytes → Bytes → Bytes
unfolding tilde_prefix_rest replace_all
expand_home env home path = if same path (codes "~") then home else elim (tilde_prefix_rest path) [
  | some rest ↦
      replace_all (env.join home (env.from_slash (replace_all rest (codes "\\") (codes "/"))))
        (codes "$HOME") home
  | none ↦ replace_all path (codes "$HOME") home
]

unfoldable pub needs_home : Bytes → Bool
unfolding tilde_prefix_rest contains
needs_home path =
    same path (codes "~") || is_some (tilde_prefix_rest path) || contains path (codes "$HOME")

-- `ExpandPath`: `none` is its error.
unfoldable pub expand_path : Env → Bytes → Option Bytes
unfolding expand_home needs_home
expand_path env path =
    if is_empty path
    then some []
    else if not (needs_home path)
    then some path
    else elim env.home_dir [ none ↦ none | some home ↦ some (expand_home env home path) ]

-- `Base`
unfoldable pub base_dir : Env → Option Bytes
unfolding expand_path
base_dir env =
    if not (is_empty (env.getenv (codes "ALIASDECK_HOME")))
    then expand_path env (env.getenv (codes "ALIASDECK_HOME"))
    else if not (is_empty (env.getenv (codes "XDG_CONFIG_HOME")))
    then elim (expand_path env (env.getenv (codes "XDG_CONFIG_HOME"))) [
      | none ↦ none
      | some expanded ↦ some (env.join expanded (codes "aliasdeck"))
    ]
    else elim env.home_dir [
      | none ↦ none
      | some home ↦ some (env.join (env.join home (codes ".config")) (codes "aliasdeck"))
    ]
