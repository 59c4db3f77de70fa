-- ===== src/Text/Search.antt =====
-- What `CutPrefix` and `Cut` return, and when they find something.
use aliasdeck.Prelude.{
  Option-cases, inl, inr, ℕ, ◌≡◌, ◌≢◌, refl, inl, inr, true, [], ◌∷◌, ◌++◌, some, All, Option-cases,
  arith,
}
use aliasdeck.Text.{Bytes, cut_prefix, has_prefix, cut}

pub cut_prefix-append : (p r : Bytes) → cut_prefix p (p ++ r) ≡ some r
unfolding cut_prefix
cut_prefix-append [] r = refl
cut_prefix-append (c ∷ p) r = ground (arith, cut_prefix-append p r)

pub cut_prefix_sound : (p s : Bytes) {r : Bytes} → cut_prefix p s ≡ some r → s ≡ p ++ r
unfolding cut_prefix
cut_prefix_sound [] s h = cc
cut_prefix_sound (c ∷ p) [] h = cc
cut_prefix_sound (c ∷ p) (d ∷ s) {r} h = ground (arith, cut_prefix_sound p s {r = r})

pub has_prefix-append : (p r : Bytes) → has_prefix (p ++ r) p ≡ true
unfolding has_prefix
has_prefix-append p r = rw (cut_prefix-append p r)

pub cut_sound :
    (sep s : Bytes) {before rest : Bytes}
    → cut sep s ≡ some (before, rest)
    → s ≡ before ++ sep ++ rest
unfolding cut
cut_sound sep [] {before} {rest} h = ground (arith, cut_prefix_sound sep [] {r = rest})
cut_sound sep (c ∷ s) {before} {rest} h = elim (Option-cases (cut_prefix sep (c ∷ s))) [
  | inl e ↦ elim (Option-cases (cut sep s)) [
    | inl f ↦ ground arith
    | inr ((b, r), f) ↦ ground (arith, cut_sound sep s {before = b} {rest = r})
  ]
  | inr (r, e) ↦ ground (arith, cut_prefix_sound sep (c ∷ s) {r = r})
]

-- No byte `c`.
abbrev pub Lacks : ℕ → Bytes → Type 0
Lacks c = All (λ d. d ≢ c)

pub cut-byte :
    (c : ℕ) (before rest : Bytes)
    → Lacks c before
    → cut (c ∷ []) (before ++ c ∷ rest) ≡ some (before, rest)
unfolding cut cut_prefix
cut-byte c [] rest h = ground arith
cut-byte c (d ∷ before) rest h = ground (arith, cut-byte c before rest h.1)
