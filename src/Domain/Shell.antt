-- ===== src/Domain/Shell.antt =====
-- internal/domain/shell.go: platforms and shells, which are strings in Go.
use aliasdeck.Prelude.{Bool, ◌||◌, not, List, [], ◌∷◌, if◌then◌else◌}
use aliasdeck.Prelude.{Result, ok, err}
use aliasdeck.Text.{Bytes, codes, same}

abbrev pub Platform : Type 0
Platform = Bytes

abbrev pub platform_macos : Platform
platform_macos = codes "macos"

abbrev pub platform_linux : Platform
platform_linux = codes "linux"

abbrev pub platform_windows : Platform
platform_windows = codes "windows"

abbrev pub all_platforms : List Platform
all_platforms = platform_macos ∷ platform_linux ∷ platform_windows ∷ []

-- `Platform.Valid`
unfoldable pub platform_valid : Platform → Bool
unfolding same
platform_valid p = same p platform_macos || same p platform_linux || same p platform_windows

-- The error holds the unknown text.
unfoldable pub parse_platform : Bytes → Result Bytes Platform
unfolding platform_valid
parse_platform s = if not (platform_valid s) then err s else ok s

abbrev pub Shell : Type 0
Shell = Bytes

abbrev pub shell_zsh : Shell
shell_zsh = codes "zsh"

abbrev pub shell_bash : Shell
shell_bash = codes "bash"

abbrev pub shell_powershell : Shell
shell_powershell = codes "powershell"

abbrev pub all_shells : List Shell
all_shells = shell_zsh ∷ shell_bash ∷ shell_powershell ∷ []

-- `Shell.Valid`
unfoldable pub shell_valid : Shell → Bool
unfolding same
shell_valid s = same s shell_zsh || same s shell_bash || same s shell_powershell

-- `Shell.IsPOSIX`
unfoldable pub is_posix : Shell → Bool
unfolding same
is_posix s = same s shell_zsh || same s shell_bash

unfoldable pub parse_shell : Bytes → Result Bytes Shell
unfolding shell_valid
parse_shell s = if not (shell_valid s) then err s else ok s

unfoldable pub default_shell_for : Platform → Shell
unfolding same
default_shell_for p =
    if same p platform_macos
    then shell_zsh
    else if same p platform_windows
    then shell_powershell
    else shell_bash
