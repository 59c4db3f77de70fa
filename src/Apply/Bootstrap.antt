-- ===== src/Apply/Bootstrap.antt =====
-- internal/apply/bootstrap.go: `AddBootstrap`, `RemoveBootstrap` and `BootstrapTargets`. The argument
-- `line` of the first and the third is what `BootstrapLine` gives for their other arguments.
use aliasdeck.Prelude.{ℕ, Bool, true, false, not, [], Option, none, some, if◌then◌else◌}
use aliasdeck.Prelude.{Result, ok, err}
use aliasdeck.Text.{Bytes, contains}
use aliasdeck.Apply.Atomic.{
  OsError, not_exist, os_failure, unsafe_destination, Disk, and_then, write_file_atomic,
}
use aliasdeck.Apply.Content.{begin_marker, add_content, remove_content}

-- `resolveRCPath`: the path behind the links, and the mode to keep.
unfoldable pub resolve_rc_path : {W : Type 0} → Disk W → Bytes → W → Result OsError (Bytes × ℕ)
resolve_rc_path disk rc_path w = elim (disk.eval_symlinks rc_path w) [
  | err e ↦ elim e [
    | not_exist ↦ ok (rc_path, 0o644)
    | os_failure m ↦ err (os_failure m)
    | unsafe_destination ↦ err unsafe_destination
  ]
  | ok resolved ↦ elim (disk.stat_mode resolved w) [ err e ↦ err e | ok mode ↦ ok (resolved, mode) ]
]

-- A missing file is empty to `AddBootstrap`.
unfoldable pub or_empty : Result OsError Bytes → Result OsError Bytes
or_empty (ok s) = ok s
or_empty (err not_exist) = ok []
or_empty (err (os_failure m)) = err (os_failure m)
or_empty (err unsafe_destination) = err unsafe_destination

-- The block, when the write has succeeded.
unfoldable pub written : {W A : Type 0} → A → Result OsError Unit × W → Result OsError A × W
written a (ok u, w) = (ok a, w)
written a (err e, w) = (err e, w)

-- `AddBootstrap`
unfoldable pub add_bootstrap : {W : Type 0} → Disk W → Bytes → Bytes → W → Result OsError Bytes × W
unfolding and_then
add_bootstrap disk rc_path line w =
    and_then (resolve_rc_path disk rc_path w, w)
      (λ (resolved, mode) w1.
        and_then (or_empty (disk.read_file resolved w1), w1)
          (λ existing w2. elim (add_content existing line) [
            | none ↦ (ok [], w2)
            | some (block, updated) ↦
                written block (write_file_atomic disk resolved updated mode w2)
          ]))

-- What `RemoveBootstrap` does with the file that it has read.
unfoldable pub remove_read :
    {W : Type 0} → Disk W → Bytes → ℕ → Option Bytes × Bool → W → Result OsError Bool × W
remove_read disk resolved mode (none, exact) w = (ok exact, w)
remove_read disk resolved mode (some updated, exact) w =
    written exact (write_file_atomic disk resolved updated mode w)

-- `RemoveBootstrap`
unfoldable pub remove_bootstrap :
    {W : Type 0} → Disk W → Bytes → Bytes → W → Result OsError Bool × W
unfolding and_then
remove_bootstrap disk rc_path block w =
    and_then (resolve_rc_path disk rc_path w, w)
      (λ (resolved, mode) w1. elim (disk.read_file resolved w1) [
        | ok existing ↦ remove_read disk resolved mode (remove_content existing block) w1
        | err e ↦ elim e [
          | not_exist ↦ (ok true, w1)
          | os_failure m ↦ (err (os_failure m), w1)
          | unsafe_destination ↦ (err unsafe_destination, w1)
        ]
      ])

-- `BootstrapTargets`: present, and matches.
unfoldable pub bootstrap_targets :
    {W : Type 0} → Disk W → Bytes → Bytes → W → Result OsError (Bool × Bool)
bootstrap_targets disk rc_path line w = elim (resolve_rc_path disk rc_path w) [
  | err e ↦ err e
  | ok (resolved, mode) ↦ elim (disk.read_file resolved w) [
    | ok existing ↦
        if not (contains existing begin_marker)
        then ok (false, false)
        else ok (true, contains existing line)
    | err e ↦ elim e [
      | not_exist ↦ ok (false, false)
      | os_failure m ↦ err (os_failure m)
      | unsafe_destination ↦ err unsafe_destination
    ]
  ]
]
