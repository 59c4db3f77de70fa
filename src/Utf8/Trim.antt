-- ===== src/Utf8/Trim.antt =====
-- Trimming a text that begins, or also ends, with an ASCII byte that is no space.
use aliasdeck.Prelude.{
  ℕ, zero, suc, ◌<◌, ◌≡◌, refl, sym, ap, ◌∙◌, ◌≡⟨◌⟩◌, ◌∎, inl, inr, Bool, false, List, [], ◌∷◌,
  ◌++◌, append_assoc, take, drop, drop_while, take_while, Bool-cases, ltb, arith,
}
use mathlib.Core.List.{flat_map, reverse, reverse-append, reverse-reverse, reverse-cons}
use aliasdeck.Text.{Bytes}
use aliasdeck.Utf8.{
  Rune, decode_rune, decode_from, decode, is_space, space_rune, trim_runes, trim_space,
}
use aliasdeck.Utf8.Ascii.{High, decode_rune-low, decode_rune-High}

-- An ASCII byte that is no space.
abbrev pub IsInk : ℕ → Type 0
IsInk c = (c < 0x80) × (is_space c ≡ false)

abbrev rune_of : ℕ → Rune
rune_of c = record { value = c; bytes = c ∷ [] }

bytes_of : List Rune → Bytes
bytes_of = flat_map (λ r. r.bytes)

decode-ascii : (c : ℕ) (s : Bytes) → c < 0x80 → decode (c ∷ s) ≡ rune_of c ∷ decode s
unfolding decode_from
decode-ascii c s h = rw (decode_rune-low c s h)

bytes_of-append : (xs ys : List Rune) → bytes_of (xs ++ ys) ≡ bytes_of xs ++ bytes_of ys
unfolding bytes_of flat_map
bytes_of-append [] ys = refl
bytes_of-append (x ∷ xs) ys = simp (bytes_of-append xs ys, append_assoc)

take-drop : (k : ℕ) (s : Bytes) → take k s ++ drop k s ≡ s
take-drop zero s = refl
take-drop (suc k) [] = refl
take-drop (suc k) (c ∷ s) = rw (take-drop k s)

High-decode_rune : (a : ℕ) (s : Bytes) → High (decode_rune a s).1 s
High-decode_rune a s = elim (Bool-cases (ltb a 0x80)) [
  | inl low ↦ rw (decode_rune-low a s (ground arith)) tt
  | inr high ↦ (decode_rune-High a s (ground arith)).1
]

take-append_High : (k : ℕ) (s t : Bytes) → High k s → take k (s ++ t) ≡ take k s
take-append_High zero s t h = refl
take-append_High (suc k) [] t h = absurd h
take-append_High (suc k) (c ∷ s) t h = rw (take-append_High k s t h.1)

-- Decoding loses no byte.
bytes_of-decode_from : (k : ℕ) (s : Bytes) → High k s → bytes_of (decode_from k s) ≡ drop k s
unfolding bytes_of flat_map decode_from
bytes_of-decode_from zero [] h = refl
bytes_of-decode_from (suc k) [] h = absurd h
bytes_of-decode_from (suc k) (a ∷ s) h = bytes_of-decode_from k s h.1
bytes_of-decode_from zero (a ∷ s) h = ground (
  arith,
  bytes_of-decode_from (decode_rune a s).1 s (High-decode_rune a s),
  take-drop (decode_rune a s).1 s,
)

-- No rune takes an ASCII byte behind its first.
decode_rune-ascii_end :
    (a : ℕ) (s : Bytes) (d : ℕ) → d < 0x80 → decode_rune a (s ++ d ∷ []) ≡ decode_rune a s
unfolding decode_rune
decode_rune-ascii_end a [] d h = ground arith
decode_rune-ascii_end a (b ∷ []) d h = ground arith
decode_rune-ascii_end a (b ∷ c ∷ []) d h = ground arith
decode_rune-ascii_end a (b ∷ c ∷ e ∷ s) d h = ground arith

decode_from-ascii_end :
    (k : ℕ) (s : Bytes) (d : ℕ)
    → High k s
    → d < 0x80
    → decode_from k (s ++ d ∷ []) ≡ decode_from k s ++ rune_of d ∷ []
unfolding decode_from
decode_from-ascii_end zero [] d h l = rw (decode_rune-low d [] l)
decode_from-ascii_end (suc k) [] d h l = absurd h
decode_from-ascii_end (suc k) (a ∷ s) d h l = decode_from-ascii_end k s d h.1 l
decode_from-ascii_end zero (a ∷ s) d h l = ground (
  arith,
  decode_rune-ascii_end a s d l,
  take-append_High (decode_rune a s).1 s (d ∷ []) (High-decode_rune a s),
  decode_from-ascii_end (decode_rune a s).1 s d (High-decode_rune a s) l,
)

drop_while_stop :
    {A : Type 0} (p : A → Bool) (xs : List A) (y : A) (zs : List A)
    → p y ≡ false
    → drop_while p (xs ++ y ∷ zs) ≡ drop_while p xs ++ y ∷ zs
drop_while_stop p [] y zs h = rw h
drop_while_stop p (x ∷ xs) y zs h = ground (arith, drop_while_stop p xs y zs h)

reverse_around :
    {A : Type 0} (xs : List A) (y : A) (zs : List A)
    → reverse (xs ++ y ∷ zs) ≡ reverse zs ++ y ∷ reverse xs
reverse_around xs y zs = simp (reverse-append, reverse-cons, append_assoc)

-- The runes without the spaces at their end.
trim_end : List Rune → List Rune
trim_end rs = reverse (drop_while space_rune (reverse rs))

trim_end-stop :
    (xs : List Rune) (y : Rune) (zs : List Rune)
    → space_rune y ≡ false
    → trim_end (xs ++ y ∷ zs) ≡ xs ++ y ∷ trim_end zs
unfolding trim_end
trim_end-stop xs y zs h =
    reverse (drop_while space_rune (reverse (xs ++ y ∷ zs)))
    ≡⟨ ap (λ rs. reverse (drop_while space_rune rs)) (reverse_around xs y zs) ⟩
      reverse (drop_while space_rune (reverse zs ++ y ∷ reverse xs))
    ≡⟨ ap reverse (drop_while_stop space_rune (reverse zs) y (reverse xs) h) ⟩
      reverse (drop_while space_rune (reverse zs) ++ y ∷ reverse xs)
    ≡⟨ reverse_around (drop_while space_rune (reverse zs)) y (reverse xs) ⟩
      reverse (reverse xs) ++ y ∷ trim_end zs
    ≡⟨ ap (λ rs. rs ++ y ∷ trim_end zs) (reverse-reverse xs) ⟩ xs ++ y ∷ trim_end zs ∎

trim_runes-front :
    (y : Rune) (rs : List Rune) → space_rune y ≡ false → trim_runes (y ∷ rs) ≡ trim_end (y ∷ rs)
unfolding trim_runes trim_end
trim_runes-front y rs h = rw h

space_rune-ink : (c : ℕ) → IsInk c → space_rune (rune_of c) ≡ false
unfolding space_rune
space_rune-ink c h = h.1

-- A trimmed text begins as the text does, if that begins with ink.
trim_space_ink :
    (c : ℕ) (s : Bytes) → IsInk c → trim_space (c ∷ s) ≡ c ∷ bytes_of (trim_end (decode s))
unfolding trim_space bytes_of flat_map
trim_space_ink c s h =
    ap (λ rs. flat_map (λ (r : Rune). r.bytes) (trim_runes rs)) (decode-ascii c s h.0)
    ∙ ap (flat_map (λ (r : Rune). r.bytes)) (
        trim_runes-front (rune_of c) (decode s) (space_rune-ink c h)
        ∙ trim_end-stop [] (rune_of c) (decode s) (space_rune-ink c h))

take_while-drop_while :
    {A : Type 0} (p : A → Bool) (xs : List A) → take_while p xs ++ drop_while p xs ≡ xs
take_while-drop_while p [] = refl
take_while-drop_while p (x ∷ xs) = ground (arith, take_while-drop_while p xs)

-- The spaces at the end.
trim_end-split : (rs : List Rune) → (spaces : List Rune) × (rs ≡ trim_end rs ++ spaces)
unfolding trim_end
trim_end-split rs = (
  reverse (take_while space_rune (reverse rs)),
  sym (reverse-reverse rs)
      ∙ ap reverse (sym (take_while-drop_while space_rune (reverse rs)))
      ∙ reverse-append (take_while space_rune (reverse rs)) (drop_while space_rune (reverse rs)),
)

bytes_of-decode : (s : Bytes) → bytes_of (decode s) ≡ s
bytes_of-decode s = bytes_of-decode_from 0 s tt

-- What is trimmed off the end of a text that begins with ink.
pub trim_space-split :
    (c : ℕ) (s : Bytes) → IsInk c → (spaces : Bytes) × (c ∷ s ≡ trim_space (c ∷ s) ++ spaces)
trim_space-split c s h =
    let (spaces, e) = trim_end-split (decode s) in
    let whole : s ≡ bytes_of (trim_end (decode s)) ++ bytes_of spaces =
      sym (bytes_of-decode s) ∙ ap bytes_of e ∙ bytes_of-append (trim_end (decode s)) spaces in
    (
      bytes_of spaces,
      ap (λ u. c ∷ u) whole ∙ ap (λ u. u ++ bytes_of spaces) (sym (trim_space_ink c s h)),
    )

-- A text that begins with ink keeps its first byte.
pub trim_space-front :
    (c : ℕ) (s : Bytes) → IsInk c → (rest : Bytes) × (trim_space (c ∷ s) ≡ c ∷ rest)
trim_space-front c s h = (bytes_of (trim_end (decode s)), trim_space_ink c s h)

-- A text that begins and ends with ink is left as it is.
pub trim_space_id :
    (c : ℕ) (s : Bytes) (d : ℕ) → IsInk c → IsInk d → trim_space (c ∷ s ++ d ∷ []) ≡ c ∷ s ++ d ∷ []
unfolding bytes_of flat_map trim_end
trim_space_id c s d h k =
    trim_space_ink c (s ++ d ∷ []) h
    ∙ ap (λ rs. c ∷ bytes_of (trim_end rs)) (decode_from-ascii_end 0 s d tt k.0)
    ∙ ap (λ rs. c ∷ bytes_of rs) (trim_end-stop (decode s) (rune_of d) [] (space_rune-ink d k))
    ∙ ap (λ u. c ∷ u)
        (bytes_of-append (decode s) (rune_of d ∷ trim_end [])
          ∙ ap (λ u. u ++ d ∷ []) (bytes_of-decode s))
