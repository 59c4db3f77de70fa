-- ===== src/Apply/Atomic.antt =====
-- internal/apply/atomic.go: replacing a file atomically. The operating system is a parameter.
use aliasdeck.Prelude.{ℕ, ◌++◌}
use aliasdeck.Prelude.{Result, ok, err}
use aliasdeck.Text.{Bytes, codes}

pub data OsError : Type 0 where
  not_exist : OsError
  os_failure : Bytes → OsError
  unsafe_destination : OsError

pub data FileKind : Type 0 where
  regular_file : FileKind
  symlink : FileKind
  directory : FileKind

-- The calls of the packages os and path/filepath, on a state `W` of the machine.
pub record Disk (W : Type 0) : Type 0 where
  pub dir : Bytes → Bytes
  pub base : Bytes → Bytes
  pub eval_symlinks : Bytes → W → Result OsError Bytes
  pub stat_mode : Bytes → W → Result OsError ℕ
  pub read_file : Bytes → W → Result OsError Bytes
  pub lstat : Bytes → W → Result OsError FileKind
  pub mkdir_all : Bytes → W → Result OsError Unit × W
  pub create_temp : Bytes → Bytes → W → Result OsError Bytes × W
  pub chmod : Bytes → ℕ → W → Result OsError Unit × W
  pub write : Bytes → Bytes → W → Result OsError Unit × W
  pub sync : Bytes → W → Result OsError Unit × W
  pub close : Bytes → W → Result OsError Unit × W
  pub rename : Bytes → Bytes → W → Result OsError Unit × W
  pub remove : Bytes → W → Result OsError Unit × W

-- `if err != nil { return err }`, and then the rest.
unfoldable pub and_then :
    {W A B : Type 0} → Result OsError A × W → (A → W → Result OsError B × W) → Result OsError B × W
and_then (ok a, w) rest = rest a w
and_then (err e, w) rest = (err e, w)

-- `refuseUnsafeDestination`
unfoldable pub refuse_unsafe_destination : {W : Type 0} → Disk W → Bytes → W → Result OsError Unit
refuse_unsafe_destination disk path w = elim (disk.lstat path w) [
  | err e ↦ elim e [
    | not_exist ↦ ok tt
    | os_failure m ↦ err (os_failure m)
    | unsafe_destination ↦ err unsafe_destination
  ]
  | ok kind ↦ elim kind [
    | regular_file ↦ ok tt
    | symlink ↦ err unsafe_destination
    | directory ↦ err unsafe_destination
  ]
]

-- One step of `writeSyncClose`: a failure closes the file and is returned.
unfoldable pub or_close :
    {W : Type 0}
    → Disk W
    → Bytes
    → Result OsError Unit × W
    → (W → Result OsError Unit × W)
    → Result OsError Unit × W
or_close disk file (ok u, w) rest = rest w
or_close disk file (err e, w) rest = (err e, (disk.close file w).1)

-- `writeSyncClose`
unfoldable pub write_sync_close :
    {W : Type 0} → Disk W → Bytes → Bytes → ℕ → W → Result OsError Unit × W
unfolding or_close
write_sync_close disk file bytes mode w = or_close disk file (disk.chmod file mode w) (λ w1.
    or_close disk file (disk.write file bytes w1)
      (λ w2. or_close disk file (disk.sync file w2) (λ w3. disk.close file w3)))

-- The deferred `os.Remove`.
unfoldable pub and_remove :
    {W : Type 0} → Disk W → Bytes → Result OsError Unit × W → Result OsError Unit × W
and_remove disk file (r, w) = (r, (disk.remove file w).1)

-- `writeFileAtomic`
unfoldable pub write_file_atomic :
    {W : Type 0} → Disk W → Bytes → Bytes → ℕ → W → Result OsError Unit × W
unfolding and_then and_remove write_sync_close refuse_unsafe_destination
write_file_atomic disk path bytes mode w = and_then (disk.mkdir_all (disk.dir path) w) (λ _ w1.
    and_then (refuse_unsafe_destination disk path w1, w1)
      (λ _ w2.
        and_then
          (disk.create_temp (disk.dir path) (codes "." ++ (disk.base path ++ codes ".*.tmp")) w2)
          (λ tmp w3. and_remove disk tmp (
            and_then (write_sync_close disk tmp bytes mode w3) (λ _ w4. disk.rename tmp path w4)))))
