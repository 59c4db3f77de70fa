-- ===== src/Api/SyncLaws.antt =====
-- What the server answers to a sync, and that the client accepts it.
use aliasdeck.Prelude.{◌≡◌, inl, inr, true, List, some, is_empty, Bool-cases, Option-cases, arith}
use aliasdeck.Prelude.{Result, ok, Result-cases}
use mathlib.Core.List.{map}
use aliasdeck.Text.{Bytes}
use aliasdeck.Domain.Shell.{platform_valid, shell_valid}
use aliasdeck.Domain.Alias.{Alias, Device, Time, applies_to}
use aliasdeck.Domain.Resolved.{resolve, compute_revision, revision_input}
use aliasdeck.Domain.Sort.{IsSorted}
use aliasdeck.Domain.Resolution.{resolve_lem}
use aliasdeck.Prelude.{[], In, ap, ◌↔◌}
use aliasdeck.Auth.Token.{Token, token_kind_device}
use aliasdeck.Auth.Middleware.{Subject, require_kind}
use aliasdeck.Store.Errors.{StoreError}
use aliasdeck.Source.Wire.{ServerSyncResponse}
use aliasdeck.Api.Sync.{
  SyncAlias, SyncResponse, SyncStore, parse_sync_platform, parse_sync_shell, sync_resolve,
  sync_response, reported, sync_device, handle_sync, sync_route,
}

-- What the code makes an answer of.
pub record IsAnswered {W : Type 0} (hash : Bytes → Bytes) (store : SyncStore W)
    (id platform shell : Bytes) (now : Time) (w : W) (r : SyncResponse) (w' : W) : Type 0 where
  pub dev : Device
  pub aliases : List Alias
  pub known_platform : platform_valid platform ≡ true
  pub known_shell : shell_valid shell ≡ true
  pub stored : store.get_device id w ≡ ok dev
  pub listed : store.list_aliases w ≡ ok aliases
  pub answer : r ≡ sync_response now (resolve hash (reported platform shell dev) aliases)
  pub touched : w' ≡ (store.touch id platform shell now w).1

parse_sync_platform-ok :
    (raw p : Bytes) → parse_sync_platform raw ≡ some p → (platform_valid raw ≡ true) × (raw ≡ p)
unfolding parse_sync_platform
parse_sync_platform-ok raw p h = elim (Bool-cases (is_empty raw)) [
  | inl e ↦ ground (arith, e)
  | inr e ↦ elim (Bool-cases (platform_valid raw)) [
    | inl f ↦ (f, ground (arith, e, f))
    | inr f ↦ ground (arith, e, f)
  ]
]

parse_sync_shell-ok :
    (raw p : Bytes) → parse_sync_shell raw ≡ some p → (shell_valid raw ≡ true) × (raw ≡ p)
unfolding parse_sync_shell
parse_sync_shell-ok raw p h = elim (Bool-cases (is_empty raw)) [
  | inl e ↦ ground (arith, e)
  | inr e ↦ elim (Bool-cases (shell_valid raw)) [
    | inl f ↦ (f, ground (arith, e, f))
    | inr f ↦ ground (arith, e, f)
  ]
]

module _ {W : Type 0} (hash : Bytes → Bytes) (store : SyncStore W) where
  sync_device-IsAnswered :
      (id platform shell : Bytes) (now : Time) (w : W) (r : SyncResponse) (w' : W)
      → platform_valid platform ≡ true
      → shell_valid shell ≡ true
      → sync_device hash store id platform shell now w ≡ (ok r, w')
      → IsAnswered hash store id platform shell now w r w'
  unfolding sync_device sync_resolve
  sync_device-IsAnswered id platform shell now w r w' p s h =
      elim (Result-cases (store.get_device id w)) [
        | inl (x, e) ↦ ground (arith, e)
        | inr (dev, e) ↦ elim (Result-cases (store.list_aliases w)) [
          | inl (x, f) ↦ ground (arith, e, f)
          | inr (aliases, f) ↦ record {
            dev = dev;
            aliases = aliases;
            known_platform = p;
            known_shell = s;
            stored = e;
            listed = f;
            answer = ground (arith, e, f);
            touched = ground (arith, e, f);
          }
        ]
      ]

  handle_sync-IsAnswered :
      (subj : Subject) (platform shell : Bytes) (now : Time) (w : W) (r : SyncResponse) (w' : W)
      → handle_sync hash store subj platform shell now w ≡ (ok r, w')
      → IsAnswered hash store subj.subject_id platform shell now w r w'
  unfolding handle_sync
  handle_sync-IsAnswered subj platform shell now w r w' h =
      elim (Option-cases (parse_sync_platform platform)) [
        | inl e ↦ ground (arith, e)
        | inr (p, e) ↦ elim (Option-cases (parse_sync_shell shell)) [
          | inl f ↦ ground (arith, e, f)
          | inr (sh, f) ↦
              let (valid, same_platform) = parse_sync_platform-ok platform p e in
              let (valid_shell, same_shell) = parse_sync_shell-ok shell sh f in
              sync_device-IsAnswered subj.subject_id platform shell now w r w' valid valid_shell
                (rw (same_platform, same_shell) (ground (arith, e, f)))
        ]
      ]

  module _ (hash_secret : Bytes → Bytes) (by_lookup : W → Bytes → Result StoreError Token) where
    -- An answer is one to a current device token.
    pub sync_route-IsAnswered :
        (header platform shell : Bytes) (now : Time) (w : W) (r : SyncResponse) (w' : W)
        → sync_route hash_secret hash by_lookup store header platform shell now w ≡ (ok r, w')
        → (subj : Subject) × (require_kind hash_secret (by_lookup w) token_kind_device now header
            ≡ some subj)
          × IsAnswered hash store subj.subject_id platform shell now w r w'
    unfolding sync_route
    sync_route-IsAnswered header platform shell now w r w' h =
        elim (Option-cases (require_kind hash_secret (by_lookup w) token_kind_device now header)) [
          | inl e ↦ ground (arith, e)
          | inr (subj, e) ↦
              (subj, e, handle_sync-IsAnswered subj platform shell now w r w' (ground (arith, e)))
        ]

-- The aliases of an answer, one by one.
abbrev pub answered : Alias → SyncAlias
answered a = record { name = a.name; command = a.command; description = a.description }

-- What an answer has to say: about the stored device `dev`, with the platform and the shell of the request, and
-- the stored aliases that apply to it, sorted by name.
pub record IsSynced {W : Type 0} (hash : Bytes → Bytes) (store : SyncStore W)
    (id platform shell : Bytes) (now : Time) (w : W) (r : SyncResponse) (w' : W) : Type 0 where
  pub dev : Device
  pub aliases : List Alias
  pub chosen : List Alias
  pub known_platform : platform_valid platform ≡ true
  pub known_shell : shell_valid shell ≡ true
  pub stored : store.get_device id w ≡ ok dev
  pub listed : store.list_aliases w ≡ ok aliases
  pub device_answered : r.device ≡ record {
    id = dev.id;
    name = dev.name;
    platform = platform;
    shell = shell;
    profile_ids = dev.profile_ids;
  }
  pub sorted : IsSorted chosen
  pub applicable :
      (a : Alias)
      → In a chosen
        ↔ (In a aliases × (applies_to a (record dev { platform = platform; shell = shell }) ≡ true))
  pub aliases_answered : r.aliases ≡ map answered chosen
  pub revised :
      r.revision
      ≡ compute_revision hash (record {
        revision = [];
        device = record dev { platform = platform; shell = shell };
        aliases = chosen;
        generated_at = 0;
      })
  pub answered_at : r.generated_at ≡ now
  pub touched : w' ≡ (store.touch id platform shell now w).1

IsAnswered-IsSynced :
    {W : Type 0} (hash : Bytes → Bytes) (store : SyncStore W) (id platform shell : Bytes)
    (now : Time) (w : W) (r : SyncResponse) (w' : W)
    → IsAnswered hash store id platform shell now w r w'
    → IsSynced hash store id platform shell now w r w'
unfolding sync_response reported resolve compute_revision revision_input
IsAnswered-IsSynced hash store id platform shell now w r w' d =
    let there : Device = record d.dev { platform = platform; shell = shell } in
    let (sorted, _, members) = resolve_lem hash there d.aliases in
    record {
      dev = d.dev;
      aliases = d.aliases;
      chosen = (resolve hash there d.aliases).aliases;
      known_platform = d.known_platform;
      known_shell = d.known_shell;
      stored = d.stored;
      listed = d.listed;
      device_answered = ap (λ u. u.device) d.answer;
      sorted = sorted;
      applicable = members;
      aliases_answered = ap (λ u. u.aliases) d.answer;
      revised = ap (λ u. u.revision) d.answer;
      answered_at = ap (λ u. u.generated_at) d.answer;
      touched = d.touched;
    }

-- The sync route answers with aliases only to a current device token, for the device that the token names and
-- that the store has. The answer has that device's id, name and profiles, with the platform and the shell of
-- the request, both known ones; the stored aliases that apply to that device and no other, sorted by name, by
-- name, command and description; and the revision of these. The only change is the device's own mark.
pub sync_route-IsSynced :
    {W : Type 0} (hash : Bytes → Bytes) (store : SyncStore W) (hash_secret : Bytes → Bytes)
    (by_lookup : W → Bytes → Result StoreError Token) (header platform shell : Bytes) (now : Time)
    (w : W) (r : SyncResponse) (w' : W)
    → sync_route hash_secret hash by_lookup store header platform shell now w ≡ (ok r, w')
    → (subj : Subject) × (require_kind hash_secret (by_lookup w) token_kind_device now header
        ≡ some subj)
      × IsSynced hash store subj.subject_id platform shell now w r w'
sync_route-IsSynced hash store hash_secret by_lookup header platform shell now w r w' h =
    let (subj, admitted, d) =
      sync_route-IsAnswered hash store hash_secret by_lookup header platform shell now w r w' h in
    (subj, admitted, IsAnswered-IsSynced hash store subj.subject_id platform shell now w r w' d)

-- The client's view of the server's answer: the JSON of the one is read as the other.
abbrev pub wire_of : SyncResponse → ServerSyncResponse
wire_of r = record {
  revision = r.revision;
  device = record {
    id = r.device.id;
    name = r.device.name;
    platform = r.device.platform;
    shell = r.device.shell;
    profile_ids = r.device.profile_ids;
  };
  aliases =
      map (λ a. record { name = a.name; command = a.command; description = a.description })
        r.aliases;
}
