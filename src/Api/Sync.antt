-- ===== src/Api/Sync.antt =====
-- internal/api/sync.go, and internal/sync's `Resolve`. The store is a parameter.
use aliasdeck.Prelude.{not, List, Option, none, some, is_empty, if◌then◌else◌}
use aliasdeck.Prelude.{Result, ok, err}
use mathlib.Core.List.{map}
use aliasdeck.Text.{Bytes}
use aliasdeck.Domain.Shell.{Platform, Shell, platform_valid, shell_valid}
use aliasdeck.Domain.Alias.{Alias, Device, Time}
use aliasdeck.Domain.Resolved.{ResolvedConfig, resolve}
use aliasdeck.Auth.Token.{Token, token_kind_device}
use aliasdeck.Auth.Middleware.{Subject, require_kind}
use aliasdeck.Store.Errors.{StoreError}
use aliasdeck.Api.Errors.{ApiError, invalid_request, unauthorized_device, store_error}

pub record SyncDevice : Type 0 where
  pub id : Bytes
  pub name : Bytes
  pub platform : Platform
  pub shell : Shell
  pub profile_ids : List Bytes

pub record SyncAlias : Type 0 where
  pub name : Bytes
  pub command : Bytes
  pub description : Bytes

pub record SyncResponse : Type 0 where
  pub revision : Bytes
  pub device : SyncDevice
  pub aliases : List SyncAlias
  pub generated_at : Time

-- What a sync calls of `store.Store`.
pub record SyncStore (W : Type 0) : Type 0 where
  pub get_device : Bytes → W → Result StoreError Device
  pub list_aliases : W → Result StoreError (List Alias)
  pub touch : Bytes → Platform → Shell → Time → W → Option StoreError × W

-- `parseSyncPlatform`: `none` is its error.
unfoldable pub parse_sync_platform : Bytes → Option Platform
parse_sync_platform raw =
    if is_empty raw then none else if not (platform_valid raw) then none else some raw

-- `parseSyncShell`
unfoldable pub parse_sync_shell : Bytes → Option Shell
parse_sync_shell raw =
    if is_empty raw then none else if not (shell_valid raw) then none else some raw

-- `sync.Resolve`
unfoldable pub sync_resolve :
    {W : Type 0} → (Bytes → Bytes) → SyncStore W → Device → W → Result StoreError ResolvedConfig
unfolding resolve
sync_resolve hash store dev w = elim (store.list_aliases w) [
  | err e ↦ err e
  | ok aliases ↦ ok (resolve hash dev aliases)
]

-- The body of the answer.
unfoldable pub sync_response : Time → ResolvedConfig → SyncResponse
sync_response now c = record {
  revision = c.revision;
  device = record {
    id = c.device.id;
    name = c.device.name;
    platform = c.device.platform;
    shell = c.device.shell;
    profile_ids = c.device.profile_ids;
  };
  aliases =
      map (λ a. record { name = a.name; command = a.command; description = a.description })
        c.aliases;
  generated_at = now;
}

-- The platform and the shell that the request reports take the stored ones' place.
unfoldable pub reported : Platform → Shell → Device → Device
reported platform shell dev = record dev { platform = platform; shell = shell }

-- `handleSync` with a known platform and shell.
unfoldable pub sync_device :
    {W : Type 0}
    → (Bytes → Bytes)
    → SyncStore W
    → Bytes
    → Platform
    → Shell
    → Time
    → W
    → Result ApiError SyncResponse × W
unfolding sync_resolve sync_response reported
sync_device hash store id platform shell now w = elim (store.get_device id w) [
  | err e ↦ (err (store_error e), w)
  | ok dev ↦ elim (sync_resolve hash store (reported platform shell dev) w) [
    | err e ↦ (err (store_error e), w)
    | ok resolved ↦ (ok (sync_response now resolved), (store.touch id platform shell now w).1)
  ]
]

-- `handleSync`, on the two parameters of the query.
unfoldable pub handle_sync :
    {W : Type 0}
    → (Bytes → Bytes)
    → SyncStore W
    → Subject
    → Bytes
    → Bytes
    → Time
    → W
    → Result ApiError SyncResponse × W
unfolding sync_device parse_sync_platform parse_sync_shell
handle_sync hash store subj platform shell now w = elim (parse_sync_platform platform) [
  | none ↦ (err invalid_request, w)
  | some p ↦ elim (parse_sync_shell shell) [
    | none ↦ (err invalid_request, w)
    | some sh ↦ sync_device hash store subj.subject_id p sh now w
  ]
]

-- The route of a sync: for device tokens only, with `writeUnauthorizedDevice` as its refusal.
unfoldable pub sync_route :
    {W : Type 0}
    → (Bytes → Bytes)
    → (Bytes → Bytes)
    → (W → Bytes → Result StoreError Token)
    → SyncStore W
    → Bytes
    → Bytes
    → Bytes
    → Time
    → W
    → Result ApiError SyncResponse × W
unfolding handle_sync
sync_route hash_secret hash by_lookup store header platform shell now w =
    elim (require_kind hash_secret (by_lookup w) token_kind_device now header) [
      | none ↦ (err unauthorized_device, w)
      | some subj ↦ handle_sync hash store subj platform shell now w
    ]
