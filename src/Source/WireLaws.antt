-- ===== src/Source/WireLaws.antt =====
-- What the client accepts as a sync response, and that it accepts every response that the resolution of
-- `internal/domain` gives.
use aliasdeck.Prelude.{
  ◌≡◌, refl, sym, ap, ◌∙◌, inl, inr, true, List, [], ◌∷◌, keep, All, Bool-cases, arith,
}
use aliasdeck.Prelude.{ok}
use mathlib.Core.Path.{subst}
use mathlib.Core.List.{map}
use aliasdeck.Text.{Bytes, same}
use aliasdeck.Text.Equality.{same_iff, same_refl}
use aliasdeck.Domain.Shell.{platform_valid, shell_valid, parse_platform, parse_shell}
use aliasdeck.Domain.Alias.{
  Alias, Device, applies_to, miss, is_no_miss, targets_platform, targets_shell, targets_profiles,
  targets_device,
}
use aliasdeck.Domain.Resolved.{
  ResolvedConfig, sort_aliases, revision_input, compute_revision, resolve,
}
use aliasdeck.Domain.Resolution.{resolve_lem}
use aliasdeck.Domain.Sort.{
  IsSorted, Before, sorted_unique, named-sort_aliases, sort_aliases-IsSorted,
}
use aliasdeck.Domain.Revision.{content, flat_map-content}
use aliasdeck.Source.Wire.{
  ServerSyncDevice, ServerSyncAlias, ServerSyncResponse, wire_device, wire_alias, check_revision,
  to_resolved_config,
}

-- Each wire alias applies to every device.
keep-wire_alias :
    (dev : Device) (ws : List ServerSyncAlias)
    → keep (λ a. applies_to a dev) (map wire_alias ws) ≡ map wire_alias ws
unfolding applies_to is_no_miss miss targets_platform targets_shell targets_profiles targets_device
    wire_alias
keep-wire_alias dev [] = refl
keep-wire_alias dev (w ∷ ws) = ap (λ xs. wire_alias w ∷ xs) (keep-wire_alias dev ws)

-- Sorting a sorted list changes nothing.
sort_aliases-of_IsSorted : (xs : List Alias) → IsSorted xs → sort_aliases xs ≡ xs
sort_aliases-of_IsSorted xs h =
    sorted_unique (sort_aliases xs) xs (sort_aliases-IsSorted xs) h λ n. named-sort_aliases n xs

-- What of an alias is sent.
abbrev pub sent : Alias → ServerSyncAlias
sent a = record { name = a.name; command = a.command; description = a.description }

abbrev pub received : List Alias → List Alias
received xs = map wire_alias (map sent xs)

All-received :
    (a : Alias) (bs : List Alias)
    → All (Before a) bs
    → All (Before (wire_alias (sent a))) (received bs)
unfolding wire_alias
All-received a [] h = tt
All-received a (b ∷ bs) (h, k) = (h, All-received a bs k)

received-IsSorted : (xs : List Alias) → IsSorted xs → IsSorted (received xs)
received-IsSorted [] h = tt
received-IsSorted (a ∷ xs) (h, k) = (All-received a xs h, received-IsSorted xs k)

received-content : (xs : List Alias) → map content (received xs) ≡ map content xs
unfolding wire_alias
received-content [] = refl
received-content (a ∷ xs) = ap (λ cs. content a ∷ cs) (received-content xs)

abbrev pub sent_device : Device → ServerSyncDevice
sent_device dev = record {
  id = dev.id;
  name = dev.name;
  platform = dev.platform;
  shell = dev.shell;
  profile_ids = dev.profile_ids;
}

-- The response for a resolved configuration.
abbrev pub sent_config : ResolvedConfig → ServerSyncResponse
sent_config c = record {
  revision = c.revision;
  device = sent_device c.device;
  aliases = map sent c.aliases;
}

module _ (hash : Bytes → Bytes) where
  -- The revision depends on the platform, the shell and the content of sorted aliases alone.
  compute_revision-received :
      (dev dev' : Device) (xs : List Alias)
      → dev'.platform ≡ dev.platform
      → dev'.shell ≡ dev.shell
      → IsSorted xs
      → (resolve hash dev' (received xs)).revision
        ≡ compute_revision hash
            (record { revision = []; device = dev; aliases = xs; generated_at = 0 })
  unfolding resolve compute_revision revision_input
  compute_revision-received dev dev' xs p s h =
      rw
        (
          keep-wire_alias dev' (map sent xs),
          sort_aliases-of_IsSorted (received xs) (received-IsSorted xs h),
          sort_aliases-of_IsSorted (received xs) (received-IsSorted xs h),
          sort_aliases-of_IsSorted xs h,
          flat_map-content (received xs) xs (received-content xs),
          p,
          s,
        )
        refl

  revision-received :
      (dev dev' : Device) (aliases : List Alias)
      → dev'.platform ≡ dev.platform
      → dev'.shell ≡ dev.shell
      → (resolve hash dev' (received (resolve hash dev aliases).aliases)).revision
        ≡ (resolve hash dev aliases).revision
  unfolding resolve compute_revision revision_input
  revision-received dev dev' aliases p s =
      compute_revision-received dev dev' (resolve hash dev aliases).aliases p s
        (sort_aliases-IsSorted _)

  resolve-received :
      (dev dev' : Device) (aliases : List Alias)
      → (resolve hash dev' (received (resolve hash dev aliases).aliases)).aliases
        ≡ received (resolve hash dev aliases).aliases
  unfolding resolve
  resolve-received dev dev' aliases =
      let xs = (resolve hash dev aliases).aliases in
      rw (keep-wire_alias dev' (map sent xs))
        (sort_aliases-of_IsSorted (received xs) (received-IsSorted xs (sort_aliases-IsSorted _)))

  -- The client accepts the response that is made of a resolved configuration, where the device has a known
  -- platform and shell: it gets the same revision, the same device by id, name and profiles, and the same
  -- names, commands and descriptions in the same order.
  pub to_resolved_config-sent_config :
      (dev : Device) (aliases : List Alias)
      → platform_valid dev.platform ≡ true
      → shell_valid dev.shell ≡ true
      → let c = resolve hash dev aliases in
        (c' : ResolvedConfig) × (to_resolved_config hash (sent_config c) ≡ ok c')
        × (c'.revision ≡ c.revision)
        × (map content c'.aliases ≡ map content c.aliases)
        × (sent_device c'.device ≡ sent_device dev)
  unfolding to_resolved_config parse_platform parse_shell check_revision
  to_resolved_config-sent_config dev aliases p s =
      let c = resolve hash dev aliases in
      let dev' = wire_device (sent_device dev) dev.platform dev.shell in
      let c' = resolve hash dev' (received c.aliases) in
      let agree : c'.revision ≡ c.revision = revision-received dev dev' aliases refl refl in
      (
        c',
        rw (to_resolved_config, p, s, agree, same_refl c.revision) refl,
        agree,
        rw (resolve-received dev dev' aliases) (received-content c.aliases),
        refl,
      )

  -- The client never accepts a response whose revision is not the one that `ComputeRevision` gives for what
  -- was accepted, and the device's platform and shell are known ones.
  pub to_resolved_config-ok :
      (w : ServerSyncResponse) (c : ResolvedConfig)
      → to_resolved_config hash w ≡ ok c
      → (c.revision ≡ w.revision)
        × (compute_revision hash c ≡ w.revision)
        × IsSorted c.aliases
        × (platform_valid c.device.platform ≡ true)
        × (shell_valid c.device.shell ≡ true)
  unfolding to_resolved_config parse_platform parse_shell check_revision
  to_resolved_config-ok w c h = elim (Bool-cases (platform_valid w.device.platform)) [
    | inr e ↦ ground (arith, e)
    | inl e ↦ elim (Bool-cases (shell_valid w.device.shell)) [
      | inr f ↦ ground (arith, e, f)
      | inl f ↦
          let c' =
            resolve hash (wire_device w.device w.device.platform w.device.shell)
              (map wire_alias w.aliases) in
          elim (Bool-cases (same c'.revision w.revision)) [
            | inr g ↦ ground (arith, e, f, g)
            | inl g ↦
                let it : c' ≡ c = ground (arith, e, f, g) in
                let agree = (same_iff c'.revision w.revision).0 g in
                let (sorted, revision, _) =
                  resolve_lem hash (wire_device w.device w.device.platform w.device.shell)
                    (map wire_alias w.aliases) in
                subst
                  (λ u.
                    (u.revision ≡ w.revision)
                    × (compute_revision hash u ≡ w.revision)
                    × IsSorted u.aliases
                    × (platform_valid u.device.platform ≡ true)
                    × (shell_valid u.device.shell ≡ true))
                  it (agree, sym revision ∙ agree, sorted, e, f)
          ]
    ]
  ]
