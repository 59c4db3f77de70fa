-- ===== src/State.antt =====
-- internal/state/state.go: the record of the last sync. The package encoding/json is a parameter.
use aliasdeck.Prelude.{ℕ, Bool, false, [], Option, none, some}
use aliasdeck.Prelude.{Result, ok, err}
use aliasdeck.Text.{Bytes, codes}
use aliasdeck.Domain.Shell.{Platform, Shell}
use aliasdeck.Domain.Alias.{Time}
use aliasdeck.Apply.Atomic.{
  Disk, OsError, not_exist, os_failure, unsafe_destination, and_then, and_remove, write_sync_close,
}

-- What the bootstrap of a startup file left.
pub record Bootstrap : Type 0 where
  pub rc_path : Bytes
  pub block : Bytes
  pub rc_hash : Bytes
  pub added_at : Time

pub record State : Type 0 where
  pub version : ℕ
  pub revision : Bytes
  pub output_path : Bytes
  pub output_hash : Bytes
  pub alias_count : ℕ
  pub platform : Platform
  pub shell : Shell
  pub source_type : Bytes
  pub source_ref : Bytes
  pub source_stale : Bool
  pub source_fetched_at : Time
  pub last_sync_at : Time
  pub client_version : Bytes
  pub bootstrap : Option Bootstrap

-- `State{}`
abbrev pub empty_state : State
empty_state = record {
  version = 0;
  revision = [];
  output_path = [];
  output_hash = [];
  alias_count = 0;
  platform = [];
  shell = [];
  source_type = [];
  source_ref = [];
  source_stale = false;
  source_fetched_at = 0;
  last_sync_at = 0;
  client_version = [];
  bootstrap = none;
}

-- `json.MarshalIndent` and `json.Unmarshal` on a state.
pub record StateJson : Type 0 where
  pub marshal : State → Option Bytes
  pub unmarshal : Bytes → Option State

-- A state that cannot be decoded is no state.
unfoldable pub decode_state : StateJson → Bytes → State
decode_state json bytes = elim (json.unmarshal bytes) [ none ↦ empty_state | some s ↦ s ]

-- `state.Load`
unfoldable pub load : {W : Type 0} → Disk W → StateJson → Bytes → W → Result OsError State
unfolding decode_state
load disk json path w = elim (disk.read_file path w) [
  | err e ↦ elim e [
    | not_exist ↦ ok empty_state
    | os_failure m ↦ err (os_failure m)
    | unsafe_destination ↦ err unsafe_destination
  ]
  | ok bytes ↦ ok (decode_state json bytes)
]

-- `state.Save` of the encoded state.
unfoldable pub save_bytes : {W : Type 0} → Disk W → Bytes → Bytes → W → Result OsError Unit × W
unfolding and_then and_remove write_sync_close
save_bytes disk path bytes w = and_then (disk.mkdir_all (disk.dir path) w) (λ _ w1.
    and_then (disk.create_temp (disk.dir path) (codes ".state.*.tmp") w1) (λ tmp w2.
      and_remove disk tmp
        (and_then (write_sync_close disk tmp bytes 0o600 w2) (λ _ w3. disk.rename tmp path w3))))

-- `state.Save`
unfoldable pub save :
    {W : Type 0} → Disk W → StateJson → Bytes → State → W → Result OsError Unit × W
unfolding save_bytes
save disk json path s w = elim (json.marshal s) [
  | none ↦ (err (os_failure (codes "marshaling state")), w)
  | some bytes ↦ save_bytes disk path bytes w
]
