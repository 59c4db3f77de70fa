-- ===== src/App/Prepared.antt =====
-- What a sync has read and made before it writes.
use aliasdeck.Prelude.{ℕ, ◌≡◌, refl, inl, inr, arith}
use aliasdeck.Prelude.{ok, Result-cases}
use mathlib.Core.Path.{subst}
use aliasdeck.Text.{Bytes}
use aliasdeck.Domain.Resolved.{ResolvedConfig}
use aliasdeck.Renderers.Render.{render}
use aliasdeck.Apply.Atomic.{Disk}
use aliasdeck.State.{StateJson, load}
use aliasdeck.App.Sync.{DeviceContext, Prepared, final_output, prepare}

module _ {W : Type 0} (sha256_hex : Bytes → Bytes) (lower : ℕ → ℕ) (disk : Disk W)
    (json : StateJson) where
  -- What stands behind a text to write.
  pub record IsPrepared (dc : DeviceContext W) (cfg : ResolvedConfig) (w : W) (p : Prepared)
      : Type 0 where
    pub text : Bytes
    pub rendered : render lower cfg ≡ ok text
    pub placed : dc.backend.output_path cfg.device ≡ ok p.path
    pub loaded : load disk json dc.state_path w ≡ ok p.previous
    pub finished :
        final_output sha256_hex lower disk json p.path text p.previous.output_hash cfg.device.shell
          w
        ≡ ok p.output

  pub prepare-IsPrepared :
      (dc : DeviceContext W) (cfg : ResolvedConfig) (w : W) (p : Prepared)
      → prepare sha256_hex lower disk json dc cfg w ≡ ok p
      → IsPrepared dc cfg w p
  unfolding prepare
  prepare-IsPrepared dc cfg w p h = elim (Result-cases (render lower cfg)) [
    | inl (x, e) ↦ ground (arith, e)
    | inr (text, e) ↦ elim (Result-cases (dc.backend.output_path cfg.device)) [
      | inl (x, f) ↦ ground (arith, e, f)
      | inr (path, f) ↦ elim (Result-cases (load disk json dc.state_path w)) [
        | inl (x, g) ↦ ground (arith, e, f, g)
        | inr (previous, g) ↦
            elim (Result-cases (
              final_output sha256_hex lower disk json path text previous.output_hash
                cfg.device.shell w)) [
                  | inl (x, k) ↦ ground (arith, e, f, g, k)
                  | inr (output, k) ↦
                      let it : record { path = path; previous = previous; output = output } ≡ p =
                        ground (arith, e, f, g, k) in
                      subst (IsPrepared dc cfg w) it
                        (record { text = text; rendered = e; placed = f; loaded = g; finished = k })
                ]
      ]
    ]
  ]

  pub prepare-of_IsPrepared :
      (dc : DeviceContext W) (cfg : ResolvedConfig) (w : W) (p : Prepared)
      → IsPrepared dc cfg w p
      → prepare sha256_hex lower disk json dc cfg w ≡ ok p
  unfolding prepare
  prepare-of_IsPrepared dc cfg w p q = rw (prepare, q.rendered, q.placed, q.loaded, q.finished) refl
