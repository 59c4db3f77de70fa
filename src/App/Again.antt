-- ===== src/App/Again.antt =====
-- A second sync of the client after a successful one.
use aliasdeck.Prelude.{
  ℕ, ◌≡◌, refl, ◌∙◌, inl, inr, true, false, Option, is_empty, Option-cases, arith,
}
use aliasdeck.Prelude.{ok, Result-cases}
use aliasdeck.Prelude.{ap, none, Bool-cases, ◌||◌}
use aliasdeck.Domain.Shell.{Shell, shell_bash, shell_zsh, is_posix}
use aliasdeck.Text.{Bytes, same}
use aliasdeck.Domain.Alias.{Time}
use aliasdeck.Domain.Resolved.{ResolvedConfig}
use aliasdeck.Renderers.Render.{
  Renderer, posix_renderer, powershell_renderer, render, renderer_for, renderer_text, guard,
  render_with,
}
use aliasdeck.Renderers.Header.{header, device_text, revision_text}
use aliasdeck.Renderers.Posix.{posix_text}
use aliasdeck.Renderers.PowerShell.{powershell_text}
use aliasdeck.Validate.Issues.{config_issues}
use aliasdeck.Apply.Atomic.{Disk}
use aliasdeck.State.{StateJson, load}
use aliasdeck.Renderers.LegacyFile.{
  migrate_legacy_posix_output, carry_forward_legacy_posix_migration, parse_legacy_posix_aliases,
  parse_current_legacy_migration,
}
use aliasdeck.Renderers.OneLine.{IsOneLine}
use aliasdeck.Renderers.NotLegacy.{parse_legacy-render}
use aliasdeck.Renderers.Unmarked.{current-render}
use aliasdeck.App.Prepared.{IsPrepared, prepare-IsPrepared, prepare-of_IsPrepared}
use aliasdeck.App.Sync.{
  migrated, ResolveInfo, DeviceContext, Prepared, final_output, prepare, new_state, report,
  sync_config,
}
use aliasdeck.App.SyncLaws.{at, sync_config-IsUnchanged}

guard-at :
    (lower : ℕ → ℕ) (cfg : ResolvedConfig) (now : Time) → guard lower (at now cfg) ≡ guard lower cfg
unfolding guard config_issues
guard-at lower cfg now = refl

renderer_text-at :
    (r : Renderer) (cfg : ResolvedConfig) (now : Time)
    → renderer_text r (at now cfg) ≡ renderer_text r cfg
unfolding renderer_text posix_text powershell_text header device_text revision_text
renderer_text-at (posix_renderer sh) cfg now = refl
renderer_text-at powershell_renderer cfg now = refl

render_with-at :
    (lower : ℕ → ℕ) (r : Renderer) (cfg : ResolvedConfig) (now : Time)
    → render_with lower r (at now cfg) ≡ render_with lower r cfg
unfolding render_with
render_with-at lower r cfg now = elim (Option-cases (guard lower cfg)) [
  | inl e ↦ ground (arith, e, guard-at lower cfg now, renderer_text-at r cfg now)
  | inr (x, e) ↦ ground (arith, e, guard-at lower cfg now)
]

-- The generated text does not depend on the time.
render-at :
    (lower : ℕ → ℕ) (cfg : ResolvedConfig) (now : Time)
    → render lower (at now cfg) ≡ render lower cfg
unfolding render
render-at lower cfg now = elim (Result-cases (renderer_for cfg.device.shell)) [
  | inl (x, e) ↦ rw (render, e) refl
  | inr (r, e) ↦ rw (render, e, render_with-at lower r cfg now) refl
]

is_posix-of_shell :
    (sh : Shell) → same sh shell_bash || same sh shell_zsh ≡ true → is_posix sh ≡ true
unfolding is_posix
is_posix-of_shell sh h = ground (arith, h)

module _ {W : Type 0} (sha256_hex : Bytes → Bytes) (lower : ℕ → ℕ) (disk : Disk W)
    (json : StateJson) where
  -- A machine that keeps what a sync wrote: the file and the state are read back.
  pub record IsKept (dc : DeviceContext W) (cfg : ResolvedConfig) (p : Prepared)
      (info : Option ResolveInfo) (later : Time) (w : W) : Type 0 where
    pub file : disk.read_file p.path w ≡ ok p.output
    pub state :
        load disk json dc.state_path w
        ≡ ok (new_state sha256_hex lower disk json dc cfg p info later)

  migrated-none :
      (rendered previous hash : Bytes) (sh : Shell)
      → parse_legacy_posix_aliases previous sh ≡ none
      → parse_current_legacy_migration previous sh ≡ none
      → migrated sha256_hex lower disk json rendered previous hash sh ≡ rendered
  unfolding migrated migrate_legacy_posix_output carry_forward_legacy_posix_migration
  migrated-none rendered previous hash sh l m = ground (arith, l, m)

  -- Over a file that was rendered, the rendered text is written as it is.
  final_output-rendered :
      (cfg : ResolvedConfig) (path text hash : Bytes) (w : W)
      → render lower cfg ≡ ok text
      → IsOneLine cfg.revision
      → disk.read_file path w ≡ ok text
      → final_output sha256_hex lower disk json path text hash cfg.device.shell w ≡ ok text
  unfolding final_output
  final_output-rendered cfg path text hash w e r f =
      let sh = cfg.device.shell in
      elim (Bool-cases (same sh shell_bash || same sh shell_zsh)) [
        | inr g ↦ rw (final_output, g) refl
        | inl g ↦
            let posix : is_posix sh ≡ true = is_posix-of_shell sh g in
            rw (final_output, g, f)
              (ap ok (
                migrated-none text text hash sh (parse_legacy-render lower cfg text sh e posix r)
                  (current-render lower cfg text sh e posix r)))
      ]

  module _ (dc : DeviceContext W) (now later now2 later2 : Time) where
    -- After a sync that wrote the rendered text as it is (no names of an earlier file were carried into it),
    -- and on a machine that keeps the file and the state that were written, a second sync of the same
    -- configuration is skipped and changes nothing, whenever it happens and for every shell. The revision
    -- must be one line, and the hash of the text must not be empty.
    pub sync_config-again :
        (cfg : ResolvedConfig) (w w' : W) (p : Prepared) (info : Option ResolveInfo)
        → prepare sha256_hex lower disk json dc (at now cfg) w ≡ ok p
        → render lower cfg ≡ ok p.output
        → IsOneLine cfg.revision
        → is_empty (sha256_hex p.output) ≡ false
        → IsKept dc (at now cfg) p info later w'
        → let p2 = record p {
          previous = new_state sha256_hex lower disk json dc (at now cfg) p info later;
        } in
          sync_config sha256_hex lower disk json dc now2 later2 cfg w' ≡ (
            ok (
                report sha256_hex lower disk json dc
                  (at now2 cfg)
                  p2
                  (dc.source.last_resolve w')
                  true),
            w',
          )
    unfolding new_state
    sync_config-again cfg w w' p info e plain one n k =
        let q = prepare-IsPrepared sha256_hex lower disk json dc (at now cfg) w p e in
        let p2 = record p {
          previous = new_state sha256_hex lower disk json dc (at now cfg) p info later;
        } in
        let again : IsPrepared sha256_hex lower disk json dc (at now2 cfg) w' p2 = record {
          text = p.output;
          rendered = render-at lower cfg now2 ∙ plain;
          placed = q.placed;
          loaded = k.state;
          finished =
              final_output-rendered cfg p.path p.output (sha256_hex p.output) w' plain one k.file;
        } in
        sync_config-IsUnchanged sha256_hex lower disk json dc now2 later2 cfg w' p2
          (prepare-of_IsPrepared sha256_hex lower disk json dc (at now2 cfg) w' p2 again)
          (record {
            bytes = p.output;
            revision = refl;
            recorded = refl;
            some_hash = n;
            on_disk = k.file;
            equal = refl;
          })
