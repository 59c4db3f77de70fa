-- ===== src/Text/Equality.antt =====
-- `same` decides equality of texts, and `contains_text` membership.
use aliasdeck.Prelude.{◌≡◌, refl, ◌↔◌, true, List, [], ◌∷◌, arith, In}
use aliasdeck.Text.{Bytes, same, contains_text}

pub same_refl : (s : Bytes) → same s s ≡ true
unfolding same
same_refl [] = refl
same_refl (c ∷ s) = ground (arith, same_refl s)

pub same_sound : (s t : Bytes) → same s t ≡ true → s ≡ t
unfolding same
same_sound [] [] h = refl
same_sound [] (d ∷ t) h = cc
same_sound (c ∷ s) [] h = cc
same_sound (c ∷ s) (d ∷ t) h = ground (arith, same_sound s t)

pub same_iff : (s t : Bytes) → (same s t ≡ true) ↔ (s ≡ t)
same_iff s t = (same_sound s t, λ e. rw e (same_refl t))

pub contains_text_iff : (xs : List Bytes) (k : Bytes) → (contains_text xs k ≡ true) ↔ In k xs
unfolding contains_text
contains_text_iff [] k = (λ h. cc, λ h. absurd h)
contains_text_iff (x ∷ xs) k = (
  λ h. ground (arith, same_iff x k, contains_text_iff xs k),
  λ h. ground (arith, same_iff x k, contains_text_iff xs k),
)
