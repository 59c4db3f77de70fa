-- ===== src/Domain/Resolved.antt =====
-- internal/domain/resolved.go: resolution, the order of aliases, and the revision.
use aliasdeck.Prelude.{List, [], ◌∷◌, ◌++◌, take, keep, if◌then◌else◌}
use mathlib.Core.List.{flat_map}
use aliasdeck.Text.{Bytes, text_leb}
use aliasdeck.Domain.Alias.{Alias, Device, Time, applies_to}

pub record ResolvedConfig : Type 0 where
  pub revision : Bytes
  pub device : Device
  pub aliases : List Alias
  pub generated_at : Time

-- The stable sort by name. Go's `slices.SortStableFunc` returns the one list that is sorted and keeps
-- equal names in their order; insertion from the right gives that list.
unfoldable pub insert_alias : Alias → List Alias → List Alias
insert_alias a [] = a ∷ []
insert_alias a (b ∷ bs) =
    let later = b ∷ insert_alias a bs in if text_leb a.name b.name then a ∷ b ∷ bs else later

unfoldable pub sort_aliases : List Alias → List Alias
sort_aliases [] = []
sort_aliases (a ∷ aliases) = insert_alias a (sort_aliases aliases)

-- Each part with a NUL behind it, then a record separator.
unfoldable pub write_field : List Bytes → Bytes
write_field [] = 0x1E ∷ []
write_field (p ∷ parts) = p ++ 0x00 ∷ write_field parts

unfoldable pub alias_fields : Alias → Bytes
alias_fields a = write_field (a.name ∷ a.command ∷ a.description ∷ [])

-- What `ComputeRevision` writes into the hash.
unfoldable pub revision_input : ResolvedConfig → Bytes
revision_input c =
    write_field (c.device.platform ∷ c.device.shell ∷ [])
    ++ flat_map alias_fields (sort_aliases c.aliases)

-- `hash` is SHA-256 with its digest in hexadecimal.
module _ (hash : Bytes → Bytes) where
  unfoldable pub compute_revision : ResolvedConfig → Bytes
  compute_revision c = take 12 (hash (revision_input c))

  unfoldable pub resolve : Device → List Alias → ResolvedConfig
  resolve dev aliases =
      let matched = sort_aliases (keep (λ a. applies_to a dev) aliases) in
      let cfg : ResolvedConfig = record {
        revision = [];
        device = dev;
        aliases = matched;
        generated_at = 0;
      } in
      record cfg { revision = compute_revision cfg }
