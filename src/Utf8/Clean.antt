-- ===== src/Utf8/Clean.antt =====
-- What `TrimSpace` keeps is a part of the text, and what an encoding holds.
use Prim.Native.Nat.{◌%◌, ◌/◌}
use aliasdeck.Prelude.{
  ℕ, zero, suc, ◌+◌, ◌≤◌, ◌<◌, Bool, List, [], ◌∷◌, ◌++◌, take, drop_while, All, arith,
}
use mathlib.Core.List.{reverse, reverse_aux, flat_map}
use aliasdeck.Text.{Bytes}
use aliasdeck.Utf8.{Rune, decode_from, decode, encode_rune, trim_space, trim_runes}

module _ {A : Type 0} (P : A → Type 0) where
  pub All-append : (xs ys : List A) → All P xs → All P ys → All P (xs ++ ys)
  All-append [] ys h k = k
  All-append (x ∷ xs) ys h k = (h.0, All-append xs ys h.1 k)

  All-reverse_aux : (xs ys : List A) → All P xs → All P ys → All P (reverse_aux xs ys)
  All-reverse_aux [] ys h k = k
  All-reverse_aux (x ∷ xs) ys h k = All-reverse_aux xs (x ∷ ys) h.1 (h.0, k)

  pub All-reverse : (xs : List A) → All P xs → All P (reverse xs)
  All-reverse xs h = All-reverse_aux xs [] h tt

  pub All-drop_while : (p : A → Bool) (xs : List A) → All P xs → All P (drop_while p xs)
  All-drop_while p [] h = tt
  All-drop_while p (x ∷ xs) h = ground (arith, All-drop_while p xs h.1)

  pub All-take : (n : ℕ) (xs : List A) → All P xs → All P (take n xs)
  All-take zero xs h = tt
  All-take (suc n) [] h = tt
  All-take (suc n) (x ∷ xs) h = (h.0, All-take n xs h.1)

pub All-flat_map :
    {A B : Type 0} (P : B → Type 0) (f : A → List B) (xs : List A)
    → All (λ x. All P (f x)) xs
    → All P (flat_map f xs)
unfolding flat_map
All-flat_map P f [] h = tt
All-flat_map P f (x ∷ xs) h = All-append P (f x) (flat_map f xs) h.0 (All-flat_map P f xs h.1)

module _ (P : ℕ → Type 0) where
  All-decode_from : (k : ℕ) (s : Bytes) → All P s → All (λ r. All P r.bytes) (decode_from k s)
  unfolding decode_from
  All-decode_from k [] h = tt
  All-decode_from (suc k) (a ∷ s) h = All-decode_from k s h.1
  All-decode_from zero (a ∷ s) h = ((h.0, All-take P _ s h.1), All-decode_from _ s h.1)

  abbrev Q : Rune → Type 0
  Q r = All P r.bytes

  -- Trimming adds no byte.
  pub All-trim_space : (s : Bytes) → All P s → All P (trim_space s)
  unfolding trim_space trim_runes
  All-trim_space s h =
      All-flat_map P (λ (r : Rune). r.bytes) _
        (All-reverse Q _ (
          All-drop_while Q _ _
            (All-reverse Q _ (All-drop_while Q _ (decode s) (All-decode_from 0 s h)))))

-- The bytes of an encoded rune: the rune itself, or bytes that are no ASCII.
pub encode_rune-All :
    (P : ℕ → Type 0) (r : ℕ) → ((b : ℕ) → 0x80 ≤ b → P b) → (r < 0x80 → P r) → All P (encode_rune r)
unfolding encode_rune
encode_rune-All P r high low = ground (
  arith,
  high (0xC0 + r / 64),
  high (0xE0 + r / 4096),
  high (0xF0 + r / 262144),
  high (0x80 + r / 4096 % 64),
  high (0x80 + r / 64 % 64),
  high (0x80 + r % 64),
)
