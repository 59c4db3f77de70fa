-- ===== src/Text/Replace.antt =====
-- Replacing one byte by a text.
use aliasdeck.Prelude.{ℕ, ◌≡◌, refl, [], ◌∷◌, ◌==◌, if◌then◌else◌, arith}
use mathlib.Core.List.{flat_map}
use aliasdeck.Text.{Bytes, replace_all}

-- The text that stands for one byte after the byte `c` has been replaced by `new`.
abbrev pub substitute : ℕ → Bytes → ℕ → Bytes
substitute c new d = if d == c then new else d ∷ []

pub replace_all-byte :
    (c : ℕ) (new s : Bytes) → replace_all s (c ∷ []) new ≡ flat_map (substitute c new) s
unfolding replace_all flat_map
replace_all-byte c new [] = refl
replace_all-byte c new (d ∷ s) = ground (arith, replace_all-byte c new s)
