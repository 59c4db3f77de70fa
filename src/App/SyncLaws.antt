-- ===== src/App/SyncLaws.antt =====
-- What a sync of the client changes, and when it changes nothing.
use aliasdeck.Prelude.{
  ℕ, ◌≡◌, refl, ◌↔◌, ◌⊎◌, inl, inr, true, false, ◌&&◌, Option, is_empty, and_parts, Bool-cases,
  arith,
}
use aliasdeck.Prelude.{ok, Result-cases}
use aliasdeck.Text.{Bytes, same}
use aliasdeck.Text.Equality.{same_iff}
use aliasdeck.Domain.Alias.{Time}
use aliasdeck.Domain.Resolved.{ResolvedConfig}
use aliasdeck.Apply.Atomic.{Disk}
use aliasdeck.State.{State, StateJson, save}
use aliasdeck.App.Prepared.{IsPrepared, prepare-IsPrepared}
use aliasdeck.Prelude.{Bool, length}
use mathlib.Core.Path.{subst}
use aliasdeck.App.Sync.{
  ResolveInfo, DeviceContext, SyncReport, Prepared, disk_hash_matches, prepare, new_state, report,
  is_unchanged, write_output, sync_config,
}

abbrev pub at : Time → ResolvedConfig → ResolvedConfig
at now cfg = record cfg { generated_at = now }

module _ {W : Type 0} (sha256_hex : Bytes → Bytes) (lower : ℕ → ℕ) (disk : Disk W)
    (json : StateJson) where
  -- The recorded sync is the one that would be made now, and the file on disk is the recorded one.
  pub record IsUnchanged (reported : Bytes) (p : Prepared) (w : W) : Type 0 where
    pub bytes : Bytes
    pub revision : p.previous.revision ≡ reported
    pub recorded : p.previous.output_hash ≡ sha256_hex p.output
    pub some_hash : is_empty p.previous.output_hash ≡ false
    pub on_disk : disk.read_file p.path w ≡ ok bytes
    pub equal : sha256_hex bytes ≡ p.previous.output_hash

  disk_hash_matches_parts :
      (path want : Bytes) (w : W)
      → disk_hash_matches sha256_hex lower disk json path want w ≡ true
      → (bytes : Bytes) × (is_empty want ≡ false)
        × (disk.read_file path w ≡ ok bytes)
        × (sha256_hex bytes ≡ want)
  unfolding disk_hash_matches
  disk_hash_matches_parts path want w h = elim (Bool-cases (is_empty want)) [
    | inl e ↦ ground (arith, e)
    | inr e ↦ elim (Result-cases (disk.read_file path w)) [
      | inl (x, f) ↦ ground (arith, e, f)
      | inr (bytes, f) ↦ (bytes, e, f, (same_iff (sha256_hex bytes) want).0 (ground (arith, e, f)))
    ]
  ]

  is_unchanged_iff :
      (cfg : ResolvedConfig) (p : Prepared) (w : W)
      → (is_unchanged sha256_hex lower disk json cfg p w ≡ true) ↔ IsUnchanged cfg.revision p w
  unfolding is_unchanged
  is_unchanged_iff cfg p w =
      let hash = p.previous.output_hash in
      let front = same p.previous.revision cfg.revision && same hash (sha256_hex p.output) in
      (
        λ h.
            let (both, matches) =
              (and_parts front (disk_hash_matches sha256_hex lower disk json p.path hash w)).0 h in
            let (r, k) =
              (and_parts (same p.previous.revision cfg.revision)
                  (same hash (sha256_hex p.output))).0
                both in
            let (bytes, some_hash, f, g) = disk_hash_matches_parts p.path hash w matches in
            record {
              bytes = bytes;
              revision = (same_iff p.previous.revision cfg.revision).0 r;
              recorded = (same_iff hash (sha256_hex p.output)).0 k;
              some_hash = some_hash;
              on_disk = f;
              equal = g;
            },
        λ u.
            rw
              (
                (same_iff p.previous.revision cfg.revision).1 u.revision,
                (same_iff hash (sha256_hex p.output)).1 u.recorded,
                disk_hash_matches,
                u.some_hash,
                u.on_disk,
                (same_iff (sha256_hex u.bytes) hash).1 u.equal,
              )
              refl,
      )

  -- What a saved state says: of this configuration, this text and this time, with the startup-file block of the
  -- state before.
  pub record IsRecorded (dc : DeviceContext W) (cfg : ResolvedConfig) (p : Prepared) (later : Time)
      (s : State) : Type 0 where
    pub revision : s.revision ≡ cfg.revision
    pub output_path : s.output_path ≡ p.path
    pub output_hash : s.output_hash ≡ sha256_hex p.output
    pub alias_count : s.alias_count ≡ length cfg.aliases
    pub platform : s.platform ≡ cfg.device.platform
    pub shell : s.shell ≡ cfg.device.shell
    pub source_type : s.source_type ≡ dc.source.source_type
    pub last_sync_at : s.last_sync_at ≡ later
    pub bootstrap : s.bootstrap ≡ p.previous.bootstrap

  -- What is reported of a sync.
  pub record IsReported (cfg : ResolvedConfig) (p : Prepared) (skipped : Bool) (r : SyncReport)
      : Type 0 where
    pub revision : r.revision ≡ cfg.revision
    pub output_path : r.output_path ≡ p.path
    pub alias_count : r.alias_count ≡ length cfg.aliases
    pub reported : r.skipped ≡ skipped

  report-IsReported :
      (dc : DeviceContext W) (cfg : ResolvedConfig) (p : Prepared) (info : Option ResolveInfo)
      (skipped : Bool)
      → IsReported cfg p skipped (report sha256_hex lower disk json dc cfg p info skipped)
  unfolding report
  report-IsReported dc cfg p info skipped = record {
    revision = refl;
    output_path = refl;
    alias_count = refl;
    reported = refl;
  }

  new_state-IsRecorded :
      (dc : DeviceContext W) (cfg : ResolvedConfig) (p : Prepared) (info : Option ResolveInfo)
      (later : Time)
      → IsRecorded dc cfg p later (new_state sha256_hex lower disk json dc cfg p info later)
  unfolding new_state
  new_state-IsRecorded dc cfg p info later = record {
    revision = refl;
    output_path = refl;
    output_hash = refl;
    alias_count = refl;
    platform = refl;
    shell = refl;
    source_type = refl;
    last_sync_at = refl;
    bootstrap = refl;
  }

  -- The backend has written the text, and then the state was saved.
  pub record IsWritten (dc : DeviceContext W) (cfg : ResolvedConfig) (p : Prepared) (later : Time)
      (w w' : W) : Type 0 where
    pub between : W
    pub applied : dc.backend.apply cfg p.output w ≡ (ok tt, between)
    pub state : State
    pub recorded : IsRecorded dc cfg p later state
    pub saved : save disk json dc.state_path state between ≡ (ok tt, w')

  write_output-IsWritten :
      (dc : DeviceContext W) (cfg : ResolvedConfig) (p : Prepared) (info : Option ResolveInfo)
      (later : Time) (w : W) (r : SyncReport) (w' : W)
      → write_output sha256_hex lower disk json dc cfg p info later w ≡ (ok r, w')
      → IsWritten dc cfg p later w w' × IsReported cfg p false r
  unfolding write_output
  write_output-IsWritten dc cfg p info later w r w' h =
      elim (Result-cases (dc.backend.apply cfg p.output w).0) [
        | inl (x, e) ↦ ground (arith, e)
        | inr (tt, e) ↦
            let between = (dc.backend.apply cfg p.output w).1 in
            let saving =
              save disk json dc.state_path
                (new_state sha256_hex lower disk json dc cfg p info later) between in
            elim (Result-cases saving.0) [
              | inl (x, f) ↦ ground (arith, e, f)
              | inr (tt, f) ↦
                  let after : saving.1 ≡ w' = ground (arith, e, f) in
                  let told : report sha256_hex lower disk json dc cfg p info false ≡ r =
                    ground (arith, e, f) in
                  (
                    record {
                      between = between;
                      applied = λ i. (e i, between);
                      state = new_state sha256_hex lower disk json dc cfg p info later;
                      recorded = new_state-IsRecorded dc cfg p info later;
                      saved = λ i. (f i, after i);
                    },
                    subst (IsReported cfg p false) told (report-IsReported dc cfg p info false),
                  )
            ]
      ]

  module _ (dc : DeviceContext W) (now later : Time) where
    -- What a successful sync did: nothing, or both writes.
    abbrev pub IsDone : ResolvedConfig → Prepared → W → SyncReport → W → Type 0
    IsDone cfg p w r w' =
        ((w' ≡ w) × IsReported (at now cfg) p true r × IsUnchanged cfg.revision p w)
        ⊎ (IsReported (at now cfg) p false r × IsWritten dc (at now cfg) p later w w')

    -- A sync whose source gave a configuration, and that reports no error, has rendered it, loaded the state of
    -- the last sync and made the text to write. Either it is skipped and changes nothing, since the last sync
    -- recorded this revision and the hash of the text and the file on disk has that hash; or it has written
    -- that text by the backend and then saved a state with the revision, the path, the hash of the text, the
    -- number of aliases, the time, and the earlier startup-file block. The report has the revision, the path
    -- and the number of aliases, and says which of the two it was.
    pub sync_config-IsDone :
        (cfg : ResolvedConfig) (w : W) (r : SyncReport) (w' : W)
        → sync_config sha256_hex lower disk json dc now later cfg w ≡ (ok r, w')
        → (p : Prepared) × IsPrepared sha256_hex lower disk json dc (at now cfg) w p
          × IsDone cfg p w r w'
    unfolding sync_config
    sync_config-IsDone cfg w r w' h =
        elim (Result-cases (prepare sha256_hex lower disk json dc (at now cfg) w)) [
          | inl (x, e) ↦ ground (arith, e)
          | inr (p, e) ↦
              let info = dc.source.last_resolve w in
              let q = prepare-IsPrepared sha256_hex lower disk json dc (at now cfg) w p e in
              elim (Bool-cases (is_unchanged sha256_hex lower disk json (at now cfg) p w)) [
                | inl f ↦
                    let told : report sha256_hex lower disk json dc (at now cfg) p info true ≡ r =
                      ground (arith, e, f) in
                    (
                      p,
                      q,
                      inl (
                        ground (arith, e, f),
                        subst (IsReported (at now cfg) p true) told
                            (report-IsReported dc (at now cfg) p info true),
                        (is_unchanged_iff (at now cfg) p w).0 f,
                      ),
                    )
                | inr f ↦
                    let (written, told) =
                      write_output-IsWritten dc (at now cfg) p info later w r w'
                        (ground (arith, e, f)) in
                    (p, q, inr (told, written))
              ]
        ]

    -- A sync is skipped wherever the last one recorded the same revision and the hash of the text that would
    -- be written, and the file on disk has that hash.
    pub sync_config-IsUnchanged :
        (cfg : ResolvedConfig) (w : W) (p : Prepared)
        → prepare sha256_hex lower disk json dc (at now cfg) w ≡ ok p
        → IsUnchanged cfg.revision p w
        → sync_config sha256_hex lower disk json dc now later cfg w ≡ (
          ok (report sha256_hex lower disk json dc (at now cfg) p (dc.source.last_resolve w) true),
          w,
        )
    unfolding sync_config
    sync_config-IsUnchanged cfg w p e u =
        rw (sync_config, e, (is_unchanged_iff (at now cfg) p w).1 u) refl
