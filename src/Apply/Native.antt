-- ===== src/Apply/Native.antt =====
-- internal/apply/backend.go and native.go: where the generated file goes. `filepath.Join` is a parameter.
use aliasdeck.Prelude.{◌++◌, if◌then◌else◌}
use aliasdeck.Prelude.{Result, ok, err}
use aliasdeck.Text.{Bytes, codes, same}
use aliasdeck.Domain.Shell.{Shell, shell_zsh, shell_bash, shell_powershell}
use aliasdeck.Domain.Alias.{Device}
use aliasdeck.Domain.Resolved.{ResolvedConfig}
use aliasdeck.Apply.Atomic.{Disk, OsError, write_file_atomic}

pub data BackendError : Type 0 where
  no_extension : Shell → BackendError
  not_implemented : BackendError
  backend_disk : OsError → BackendError

-- `SyncBackend`, on a state `W` of the machine.
pub record SyncBackend (W : Type 0) : Type 0 where
  pub name : Bytes
  pub output_path : Device → Result BackendError Bytes
  pub apply : ResolvedConfig → Bytes → W → Result BackendError Unit × W

unfoldable pub shell_file_ext : Shell → Result BackendError Bytes
unfolding same
shell_file_ext sh =
    if same sh shell_zsh
    then ok (codes "zsh")
    else if same sh shell_bash
    then ok (codes "bash")
    else if same sh shell_powershell
    then ok (codes "ps1")
    else err (no_extension sh)

-- `NativeBackend.OutputPath`
unfoldable pub native_output_path :
    (Bytes → Bytes → Bytes) → Bytes → Device → Result BackendError Bytes
unfolding shell_file_ext
native_output_path join base dev = elim (shell_file_ext dev.shell) [
  | err e ↦ err e
  | ok ext ↦ ok (join base (codes "aliases." ++ ext))
]

unfoldable pub of_disk : {W : Type 0} → Result OsError Unit × W → Result BackendError Unit × W
of_disk (ok u, w) = (ok u, w)
of_disk (err e, w) = (err (backend_disk e), w)

-- `NativeBackend.Apply`
unfoldable pub native_apply :
    {W : Type 0}
    → Disk W
    → (Bytes → Bytes → Bytes)
    → Bytes
    → ResolvedConfig
    → Bytes
    → W
    → Result BackendError Unit × W
unfolding native_output_path of_disk write_file_atomic
native_apply disk join base cfg rendered w = elim (native_output_path join base cfg.device) [
  | err e ↦ (err e, w)
  | ok path ↦ of_disk (write_file_atomic disk path rendered 0o644 w)
]

-- `NativeBackend`
unfoldable pub native_backend :
    {W : Type 0} → Disk W → (Bytes → Bytes → Bytes) → Bytes → SyncBackend W
unfolding native_output_path native_apply
native_backend disk join base = record {
  name = codes "native";
  output_path = native_output_path join base;
  apply = native_apply disk join base;
}

-- `ChezmoiBackend`
unfoldable pub chezmoi_backend : {W : Type 0} → SyncBackend W
chezmoi_backend = record {
  name = codes "chezmoi";
  output_path = λ dev. err not_implemented;
  apply = λ cfg rendered w. (err not_implemented, w);
}
