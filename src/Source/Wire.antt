-- ===== src/Source/Wire.antt =====
-- internal/source/server.go: the sync response as the client reads it, and what it makes of it.
use aliasdeck.Prelude.{true, not, List, [], none, if◌then◌else◌}
use aliasdeck.Prelude.{Result, ok, err}
use mathlib.Core.List.{map}
use aliasdeck.Text.{Bytes, same}
use aliasdeck.Domain.Shell.{Platform, Shell, parse_platform, parse_shell}
use aliasdeck.Domain.Alias.{Alias, Device}
use aliasdeck.Domain.Resolved.{ResolvedConfig, resolve}

pub record ServerSyncDevice : Type 0 where
  pub id : Bytes
  pub name : Bytes
  pub platform : Bytes
  pub shell : Bytes
  pub profile_ids : List Bytes

pub record ServerSyncAlias : Type 0 where
  pub name : Bytes
  pub command : Bytes
  pub description : Bytes

pub record ServerSyncResponse : Type 0 where
  pub revision : Bytes
  pub device : ServerSyncDevice
  pub aliases : List ServerSyncAlias

pub data WireError : Type 0 where
  unknown_platform : Bytes → WireError
  unknown_shell : Bytes → WireError
  revision_mismatch : Bytes → Bytes → WireError

unfoldable pub wire_device : ServerSyncDevice → Platform → Shell → Device
wire_device d platform shell = record {
  id = d.id;
  name = d.name;
  hostname = [];
  platform = platform;
  shell = shell;
  architecture = [];
  profile_ids = d.profile_ids;
  last_seen_at = none;
  last_sync_at = none;
  client_version = [];
  revoked_at = none;
}

unfoldable pub wire_alias : ServerSyncAlias → Alias
wire_alias a = record {
  id = [];
  name = a.name;
  command = a.command;
  description = a.description;
  enabled = true;
  tags = [];
  platforms = [];
  shells = [];
  profile_ids = [];
  device_ids = [];
  created_at = 0;
  updated_at = 0;
}

-- The recomputed revision must be the reported one.
unfoldable pub check_revision : Bytes → ResolvedConfig → Result WireError ResolvedConfig
check_revision reported resolved =
    if not (same resolved.revision reported)
    then err (revision_mismatch reported resolved.revision)
    else ok resolved

-- `toResolvedConfig`; `hash` is the one that `ComputeRevision` uses.
unfoldable pub to_resolved_config :
    (Bytes → Bytes) → ServerSyncResponse → Result WireError ResolvedConfig
unfolding parse_platform parse_shell wire_device wire_alias resolve check_revision
to_resolved_config hash w = elim (parse_platform w.device.platform) [
  | err s ↦ err (unknown_platform s)
  | ok platform ↦ elim (parse_shell w.device.shell) [
    | err s ↦ err (unknown_shell s)
    | ok shell ↦
        check_revision w.revision
          (resolve hash (wire_device w.device platform shell) (map wire_alias w.aliases))
  ]
]
