-- ===== src/Utf8/Ascii.antt =====
-- The bytes below 0x80 of a text are exactly its runes below 0x80.
use aliasdeck.Prelude.{
  ℕ, zero, suc, ◌≤◌, ◌<◌, ◌≡◌, refl, inl, inr, Bool, false, [], ◌∷◌, any, all, All, Bool-cases, ltb,
  arith,
}
use mathlib.Core.List.{map}
use aliasdeck.Text.{Bytes}
use aliasdeck.Utf8.{decode_rune, decode_from, runes}

-- The first `k` bytes are there, and none is below 0x80.
abbrev pub High : ℕ → Bytes → Type 0
High zero s = Unit
High (suc k) [] = ⊥
High (suc k) (b ∷ s) = (0x80 ≤ b) × High k s

pub decode_rune-low : (a : ℕ) (s : Bytes) → a < 0x80 → decode_rune a s ≡ (a, 0)
unfolding decode_rune
decode_rune-low a s h = ground arith

pub decode_rune-High :
    (a : ℕ) (s : Bytes) → 0x80 ≤ a → (0x80 ≤ (decode_rune a s).0) × High (decode_rune a s).1 s
unfolding decode_rune
decode_rune-High a [] h = ground arith
decode_rune-High a (b ∷ []) h = ground arith
decode_rune-High a (b ∷ c ∷ []) h = ground arith
decode_rune-High a (b ∷ c ∷ d ∷ s) h = ground arith

module _ (p : ℕ → Bool) (misses : (c : ℕ) → 0x80 ≤ c → p c ≡ false) where
  any-decode_from :
      (k : ℕ) (s : Bytes) → High k s → any p (map (λ r. r.value) (decode_from k s)) ≡ any p s
  unfolding decode_from
  any-decode_from zero [] h = refl
  any-decode_from (suc k) [] h = absurd h
  any-decode_from (suc k) (a ∷ s) h = ground (arith, misses a h.0, any-decode_from k s h.1)
  any-decode_from zero (a ∷ s) h = elim (Bool-cases (ltb a 0x80)) [
    | inl low ↦ rw (decode_rune-low a s (ground arith), any-decode_from 0 s tt)
    | inr high ↦
        let (big, rest) = decode_rune-High a s (ground arith) in
        ground (
          arith,
          misses a,
          misses (decode_rune a s).0 big,
          any-decode_from (decode_rune a s).1 s rest,
        )
  ]

  -- A test that no rune from 0x80 on passes is met by the same bytes as runes.
  pub any-runes : (s : Bytes) → any p (runes s) ≡ any p s
  unfolding runes
  any-runes s = any-decode_from 0 s tt

  pub all-runes : (s : Bytes) → all p (runes s) ≡ all p s
  unfolding runes decode_from
  all-runes [] = refl
  all-runes (a ∷ s) = elim (Bool-cases (ltb a 0x80)) [
    | inl low ↦ rw (decode_rune-low a s (ground arith), all-runes s)
    | inr high ↦
        let (big, rest) = decode_rune-High a s (ground arith) in
        ground (arith, misses a, misses (decode_rune a s).0 big)
  ]

-- The runes of an ASCII text are its bytes.
pub runes-ascii : (s : Bytes) → All (λ c. c < 0x80) s → runes s ≡ s
unfolding runes decode_from
runes-ascii [] h = refl
runes-ascii (a ∷ s) h = rw (decode_rune-low a s h.0, runes-ascii s h.1)
