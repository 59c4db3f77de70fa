-- ===== src/App/Sync.antt =====
-- internal/app/sync.go and hash.go: `syncWithContext`. The machine, the source, the backend, SHA-256 and
-- `filepath.Join` are parameters.
use aliasdeck.Prelude.{
  ℕ, Bool, true, false, ◌&&◌, ◌||◌, not, ◌++◌, Option, none, some, length, take, is_empty, ltb,
  if◌then◌else◌,
}
use aliasdeck.Prelude.{Result, ok, err}
use aliasdeck.Text.{Bytes, codes, same}
use aliasdeck.Domain.Shell.{Shell, shell_zsh, shell_bash}
use aliasdeck.Domain.Alias.{Device, Time}
use aliasdeck.Domain.Resolved.{ResolvedConfig}
use aliasdeck.Renderers.Render.{RenderError, render}
use aliasdeck.Renderers.LegacyFile.{
  migrate_legacy_posix_output, carry_forward_legacy_posix_migration,
}
use aliasdeck.Apply.Atomic.{Disk, OsError, not_exist, os_failure, unsafe_destination}
use aliasdeck.Apply.Native.{SyncBackend, BackendError}
use aliasdeck.State.{State, StateJson, load, save}

abbrev pub version : Bytes
version = codes "0.7.0"

-- `source.ResolveInfo`, without its ref.
pub record ResolveInfo : Type 0 where
  pub commit : Bytes
  pub fetched_at : Time
  pub stale : Bool

-- A `ConfigSource` with its descriptor; `last_resolve` is `none` where it is no `ResolveReporter`.
pub record ConfigSource (W : Type 0) : Type 0 where
  pub source_type : Bytes
  pub ref : Bytes
  pub resolve_for : Device → W → Result Bytes ResolvedConfig × W
  pub last_resolve : W → Option ResolveInfo

pub record DeviceContext (W : Type 0) : Type 0 where
  pub state_path : Bytes
  pub device : Device
  pub source : ConfigSource W
  pub backend : SyncBackend W

pub data SyncError : Type 0 where
  resolving : Bytes → SyncError
  rendering : RenderError → SyncError
  backend_path : BackendError → SyncError
  loading_state : OsError → SyncError
  reading_previous : OsError → SyncError
  applying : BackendError → SyncError
  saving_state : OsError → SyncError

pub record SyncReport : Type 0 where
  pub device : Device
  pub backend : Bytes
  pub output_path : Bytes
  pub revision : Bytes
  pub alias_count : ℕ
  pub skipped : Bool
  pub source_stale : Bool
  pub source_fetched_at : Time

-- `ShortSHA`
unfoldable pub short_sha : Bytes → Bytes
short_sha sha = if ltb 12 (length sha) then take 12 sha else sha

-- The ref that is recorded.
unfoldable pub source_ref : Bytes → Option ResolveInfo → Bytes
unfolding short_sha
source_ref ref none = ref
source_ref ref (some info) =
    if is_empty info.commit then ref else ref ++ (codes "@" ++ short_sha info.commit)

unfoldable pub is_stale : Option ResolveInfo → Bool
is_stale none = false
is_stale (some info) = info.stale

unfoldable pub fetched_time : Option ResolveInfo → Time
fetched_time none = 0
fetched_time (some info) = info.fetched_at

-- What a sync has read and made before it writes.
pub record Prepared : Type 0 where
  pub path : Bytes
  pub previous : State
  pub output : Bytes

module _ {W : Type 0} (sha256_hex : Bytes → Bytes) (lower : ℕ → ℕ) (disk : Disk W)
    (json : StateJson) where
  -- `diskHashMatches`
  unfoldable pub disk_hash_matches : Bytes → Bytes → W → Bool
  disk_hash_matches path want w =
      if is_empty want
      then false
      else elim (disk.read_file path w) [ err e ↦ false | ok bytes ↦ same (sha256_hex bytes) want ]

  -- What an earlier generated file asks for.
  unfoldable pub migrated : Bytes → Bytes → Bytes → Shell → Bytes
  unfolding migrate_legacy_posix_output carry_forward_legacy_posix_migration
  migrated rendered previous output_hash shell =
      let m = migrate_legacy_posix_output rendered previous shell in
      if same m rendered && not (is_empty output_hash) && same (sha256_hex previous) output_hash
      then carry_forward_legacy_posix_migration rendered previous shell
      else m

  -- The text to write: for bash and zsh the file that is there is read first.
  unfoldable pub final_output : Bytes → Bytes → Bytes → Shell → W → Result SyncError Bytes
  unfolding migrated
  final_output path rendered output_hash shell w =
      if same shell shell_bash || same shell shell_zsh
      then elim (disk.read_file path w) [
        | ok previous ↦ ok (migrated rendered previous output_hash shell)
        | err e ↦ elim e [
          | not_exist ↦ ok rendered
          | os_failure m ↦ err (reading_previous (os_failure m))
          | unsafe_destination ↦ err (reading_previous unsafe_destination)
        ]
      ]
      else ok rendered

  -- `syncWithContext` up to the text to write, which only reads.
  unfoldable pub prepare : DeviceContext W → ResolvedConfig → W → Result SyncError Prepared
  unfolding render load final_output
  prepare dc cfg w = elim (render lower cfg) [
    | err e ↦ err (rendering e)
    | ok rendered ↦ elim (dc.backend.output_path cfg.device) [
      | err e ↦ err (backend_path e)
      | ok path ↦ elim (load disk json dc.state_path w) [
        | err e ↦ err (loading_state e)
        | ok previous ↦ elim (final_output path rendered previous.output_hash cfg.device.shell w) [
          | err e ↦ err e
          | ok output ↦ ok (record { path = path; previous = previous; output = output })
        ]
      ]
    ]
  ]

  -- The state after an apply.
  unfoldable pub new_state :
      DeviceContext W → ResolvedConfig → Prepared → Option ResolveInfo → Time → State
  unfolding source_ref is_stale fetched_time
  new_state dc cfg p info now = record {
    version = 1;
    revision = cfg.revision;
    output_path = p.path;
    output_hash = sha256_hex p.output;
    alias_count = length cfg.aliases;
    platform = cfg.device.platform;
    shell = cfg.device.shell;
    source_type = dc.source.source_type;
    source_ref = source_ref dc.source.ref info;
    source_stale = is_stale info;
    source_fetched_at = fetched_time info;
    last_sync_at = now;
    client_version = version;
    bootstrap = p.previous.bootstrap;
  }

  unfoldable pub report :
      DeviceContext W → ResolvedConfig → Prepared → Option ResolveInfo → Bool → SyncReport
  unfolding is_stale fetched_time
  report dc cfg p info skipped = record {
    device = cfg.device;
    backend = dc.backend.name;
    output_path = p.path;
    revision = cfg.revision;
    alias_count = length cfg.aliases;
    skipped = skipped;
    source_stale = is_stale info;
    source_fetched_at = fetched_time info;
  }

  -- The three tests of the skip.
  unfoldable pub is_unchanged : ResolvedConfig → Prepared → W → Bool
  unfolding disk_hash_matches
  is_unchanged cfg p w =
      same p.previous.revision cfg.revision
      && same p.previous.output_hash (sha256_hex p.output)
      && disk_hash_matches p.path p.previous.output_hash w

  -- The apply, and the record of it.
  unfoldable pub write_output :
      DeviceContext W
      → ResolvedConfig
      → Prepared
      → Option ResolveInfo
      → Time
      → W
      → Result SyncError SyncReport × W
  unfolding new_state report save
  write_output dc cfg p info now w =
      let (applied, w1) = dc.backend.apply cfg p.output w in
      elim applied [
        | err e ↦ (err (applying e), w1)
        | ok u ↦
            let (saved, w2) = save disk json dc.state_path (new_state dc cfg p info now) w1 in
            elim saved [
              | err e ↦ (err (saving_state e), w2)
              | ok v ↦ (ok (report dc cfg p info false), w2)
            ]
      ]

  -- `syncWithContext` behind the source, with the times of its two calls of `env.Now`.
  unfoldable pub sync_config :
      DeviceContext W → Time → Time → ResolvedConfig → W → Result SyncError SyncReport × W
  unfolding prepare is_unchanged write_output report
  sync_config dc now later resolved w =
      let cfg = record resolved { generated_at = now } in
      elim (prepare dc cfg w) [
        | err e ↦ (err e, w)
        | ok p ↦
            let info = dc.source.last_resolve w in
            if is_unchanged cfg p w
            then (ok (report dc cfg p info true), w)
            else write_output dc cfg p info later w
      ]

  -- `syncWithContext`
  unfoldable pub sync_with_context :
      DeviceContext W → Time → Time → W → Result SyncError SyncReport × W
  unfolding sync_config
  sync_with_context dc now later w =
      let (r, w1) = dc.source.resolve_for dc.device w in
      elim r [ err e ↦ (err (resolving e), w1) | ok cfg ↦ sync_config dc now later cfg w1 ]
