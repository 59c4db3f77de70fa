-- ===== src/Apply/ContentLaws.antt =====
-- Removing the block that was added gives back the file.
use aliasdeck.Prelude.{
  ℕ, suc, ◌+◌, ◌<◌, ◌≡◌, ◌≢◌, refl, sym, ap, ◌∙◌, ◌⊎◌, inl, inr, true, false, [], ◌∷◌, ◌++◌,
  append_assoc, append-nil, none, some, length, take, drop, All, Bool-cases, Option-cases, is_some,
  arith,
}
use mathlib.Core.Path.{subst}
use aliasdeck.Text.{Bytes, codes, contains, index, cut, cut_prefix}
use aliasdeck.Text.Search.{cut_prefix-append}
use aliasdeck.Apply.Content.{
  begin_marker, end_marker, detect_eol, ends_open, padding, build_block, add_content,
  remove_content,
}

-- A byte of a line ending.
abbrev IsEol : ℕ → Type 0
IsEol c = (c ≡ 10) ⊎ (c ≡ 13)

-- A text that cannot overlap a line ending.
abbrev IsSolid : Bytes → Type 0
IsSolid = All (λ c. (c ≢ 10) × (c ≢ 13))

none_of_contains :
    (c : ℕ) (e m : Bytes)
    → contains (c ∷ e) m ≡ false
    → (cut_prefix m (c ∷ e) ≡ none) × (contains e m ≡ false)
unfolding contains cut
none_of_contains c e m h = ground arith

contains-nil : (e m : Bytes) → contains e m ≡ false → cut_prefix m e ≡ none
unfolding contains cut
contains-nil [] m h = ground arith
contains-nil (c ∷ e) m h = (none_of_contains c e m h).0

-- A solid text that is no prefix of `e` is none of `e` with a line ending behind it.
cut_prefix-solid :
    (m rest e : Bytes) (c : ℕ) (t : Bytes)
    → IsSolid m
    → IsEol c
    → cut_prefix m e ≡ none
    → cut_prefix (m ++ rest) (e ++ c ∷ t) ≡ none
unfolding cut_prefix
cut_prefix-solid [] rest e c t s h k = cc
cut_prefix-solid (x ∷ m) rest [] c t s h k = ground arith
cut_prefix-solid (x ∷ m) rest (y ∷ e) c t s h k =
    ground (arith, cut_prefix-solid m rest e c t s.1 h)

-- Fewer line endings before a solid text than in the text.
cut_prefix-fewer :
    (q : Bytes) (x : ℕ) (m pad t : Bytes)
    → (x ≢ 10) × (x ≢ 13)
    → All IsEol pad
    → length q < length pad
    → cut_prefix (q ++ x ∷ m) (pad ++ t) ≡ none
unfolding cut_prefix
cut_prefix-fewer q x m [] t s h k = absurd (omega arith)
cut_prefix-fewer [] x m (c ∷ pad) t s h k = ground arith
cut_prefix-fewer (p ∷ q) x m (c ∷ pad) t s h k = ground (arith, cut_prefix-fewer q x m pad t s h.1)

-- The block is no prefix of what stands before it and of the block.
cut_prefix-padded :
    (q : Bytes) (x : ℕ) (m rest e : Bytes) (c : ℕ) (pad t : Bytes)
    → IsSolid (x ∷ m)
    → All IsEol (c ∷ pad)
    → contains e (x ∷ m) ≡ false
    → length q < length e + length (c ∷ pad)
    → cut_prefix (q ++ ((x ∷ m) ++ rest)) (e ++ ((c ∷ pad) ++ t)) ≡ none
unfolding cut_prefix
cut_prefix-padded [] x m rest e c pad t s h k l =
    cut_prefix-solid (x ∷ m) rest e c (pad ++ t) s h.0 (contains-nil e (x ∷ m) k)
cut_prefix-padded (p ∷ q) x m rest [] c pad t s h k l =
    cut_prefix-fewer (p ∷ q) x (m ++ rest) (c ∷ pad) t s.0 h (omega arith)
cut_prefix-padded (p ∷ q) x m rest (d ∷ e) c pad t s h k l = ground (
  arith,
  cut_prefix-padded q x m rest e c pad t s h (none_of_contains d e (x ∷ m) k).1 (omega arith),
)

cut_self : (s : Bytes) → cut s s ≡ some ([], [])
unfolding cut
cut_self [] = refl
cut_self (c ∷ s) =
    rw (cut, ap (cut_prefix (c ∷ s)) (sym (append-nil (c ∷ s))) ∙ cut_prefix-append (c ∷ s) [])

cut_step :
    (sep : Bytes) (c : ℕ) (s b r : Bytes)
    → cut_prefix sep (c ∷ s) ≡ none
    → cut sep s ≡ some (b, r)
    → cut sep (c ∷ s) ≡ some (c ∷ b, r)
unfolding cut
cut_step sep c s b r h k = rw (cut, h, k)

cut-block :
    (x : ℕ) (m rest e : Bytes) (c : ℕ) (pad : Bytes)
    → IsSolid (x ∷ m)
    → All IsEol (c ∷ pad)
    → contains e (x ∷ m) ≡ false
    → cut ((c ∷ pad) ++ ((x ∷ m) ++ rest)) (e ++ ((c ∷ pad) ++ ((x ∷ m) ++ rest))) ≡ some (e, [])
cut-block x m rest [] c pad s h k = cut_self ((c ∷ pad) ++ ((x ∷ m) ++ rest))
cut-block x m rest (d ∷ e) c pad s h k =
    cut_step ((c ∷ pad) ++ ((x ∷ m) ++ rest)) d (e ++ ((c ∷ pad) ++ ((x ∷ m) ++ rest))) e []
      (cut_prefix-padded (c ∷ pad) x m rest (d ∷ e) c pad ((x ∷ m) ++ rest) s h k (omega arith))
      (cut-block x m rest e c pad s h (none_of_contains d e (x ∷ m) k).1)

take-append : (s t : Bytes) → take (length s) (s ++ t) ≡ s
take-append [] t = refl
take-append (c ∷ s) t = rw (take-append s t)

drop-length : (t : Bytes) → drop (length t) t ≡ []
drop-length [] = refl
drop-length (c ∷ t) = drop-length t

drop-all : (s t : Bytes) → drop (length s + length t) (s ++ t) ≡ []
drop-all [] t = let e : 0 + length t ≡ length t = omega arith in rw e (drop-length t)
drop-all (c ∷ s) t =
    let e : suc (length s) + length t ≡ suc (length s + length t) = omega arith in
    rw e (drop-all s t)

-- The new content, when the first place of the block is the end of the file.
remove_content-cut :
    (existing : Bytes) (c : ℕ) (block : Bytes)
    → cut (c ∷ block) (existing ++ c ∷ block) ≡ some (existing, [])
    → remove_content (existing ++ c ∷ block) (c ∷ block) ≡ (some existing, true)
unfolding remove_content index
remove_content-cut existing c block h =
    rw (h, take-append existing (c ∷ block), drop-all existing (c ∷ block), append-nil existing)

-- A text that is a line ending.
abbrev IsEolText : Bytes → Type 0
IsEolText s = (c : ℕ) × (t : Bytes) × (s ≡ c ∷ t) × All IsEol s

detect_eol-IsEolText : (existing : Bytes) → IsEolText (detect_eol existing)
unfolding detect_eol
detect_eol-IsEolText existing = elim (Bool-cases (contains existing (codes "\r\n"))) [
  | inl e ↦ rw e (13, 10 ∷ [], refl, (inr refl, (inl refl, tt)))
  | inr e ↦ rw e (10, [], refl, (inl refl, tt))
]

All-append-IsEol : (s t : Bytes) → All IsEol s → All IsEol t → All IsEol (s ++ t)
All-append-IsEol [] t h k = k
All-append-IsEol (c ∷ s) t h k = (h.0, All-append-IsEol s t h.1 k)

padding-IsEolText : (d : ℕ) (s eol : Bytes) → IsEolText eol → IsEolText (padding (d ∷ s) eol)
unfolding padding
padding-IsEolText d s eol (c, t, e, h) = elim (Bool-cases (ends_open (d ∷ s))) [
  | inl f ↦ rw f (c, t ++ eol, ap (λ u. u ++ eol) e, All-append-IsEol eol eol h h)
  | inr f ↦ rw f (c, t, e, h)
]

begin_marker-IsSolid : (m : Bytes) × (begin_marker ≡ b'#' ∷ m) × IsSolid (b'#' ∷ m)
unfolding begin_marker
begin_marker-IsSolid = (codes " >>> aliasdeck >>>", refl, omega arith)

-- The block is found at the end of the file and nowhere before.
cut-build_block :
    (existing line : Bytes)
    → contains existing begin_marker ≡ false
    → (c : ℕ) × (t : Bytes) × (build_block existing line (detect_eol existing) ≡ c ∷ t)
      × (cut (c ∷ t) (existing ++ c ∷ t) ≡ some (existing, []))
unfolding build_block padding ends_open begin_marker
cut-build_block [] line h =
    let (m, e, solid) = begin_marker-IsSolid in
    let eol = detect_eol [] in
    let rest = eol ++ (line ++ (eol ++ (end_marker ++ eol))) in
    (b'#', m ++ rest, ap (λ u. u ++ rest) e, cut_self (b'#' ∷ m ++ rest))
cut-build_block (d ∷ s) line h =
    let (m, e, solid) = begin_marker-IsSolid in
    let eol = detect_eol (d ∷ s) in
    let (c, pad, f, ends) = padding-IsEolText d s eol (detect_eol-IsEolText (d ∷ s)) in
    let rest = eol ++ (line ++ (eol ++ (end_marker ++ eol))) in
    (
      c,
      pad ++ ((b'#' ∷ m) ++ rest),
      ap (λ u. u ++ (begin_marker ++ rest)) f ∙ ap (λ u. (c ∷ pad) ++ (u ++ rest)) e,
      cut-block b'#' m rest (d ∷ s) c pad solid (subst (All IsEol) f ends)
          (subst (λ u. contains (d ∷ s) u ≡ false) e h),
    )

-- Splits what `add_content` gives.
add_content_parts :
    (existing line : Bytes) {block updated : Bytes}
    → add_content existing line ≡ some (block, updated)
    → (contains existing begin_marker ≡ false)
      × (block ≡ build_block existing line (detect_eol existing))
      × (updated ≡ existing ++ build_block existing line (detect_eol existing))
unfolding add_content
add_content_parts existing line {block} {updated} h = ground arith

-- Removing the block that `AddBootstrap` returned from the file that it wrote is exact: it gives back
-- the file as it was before, byte for byte.
pub remove_content-add_content :
    (existing line block updated : Bytes)
    → add_content existing line ≡ some (block, updated)
    → remove_content updated block ≡ (some existing, true)
remove_content-add_content existing line block updated h =
    let (lacks, b, u) = add_content_parts existing line {block = block} {updated = updated} h in
    let (c, t, e, found) = cut-build_block existing line lacks in
    rw (u, b, e) (remove_content-cut existing c t found)

cut-some : (a m b : Bytes) → is_some (cut m (a ++ (m ++ b))) ≡ true
unfolding cut
cut-some [] [] [] = refl
cut-some [] [] (d ∷ b) = refl
cut-some [] (c ∷ m) b = rw (cut, cut_prefix-append (c ∷ m) b)
cut-some (d ∷ a) m b = elim (Option-cases (cut_prefix m (d ∷ a ++ (m ++ b)))) [
  | inl e ↦ ground (arith, e, cut-some a m b)
  | inr (r, e) ↦ ground (arith, e)
]

contains-append : (a m b : Bytes) → contains (a ++ (m ++ b)) m ≡ true
unfolding contains
contains-append a m b = cut-some a m b

-- Adding a block again does nothing, whatever line the second call would write; and the file that the
-- first call wrote holds the line, which is what `BootstrapTargets` looks for.
pub add_content-again :
    (existing line block updated : Bytes)
    → add_content existing line ≡ some (block, updated)
    → ((other : Bytes) → add_content updated other ≡ none)
      × (contains updated begin_marker ≡ true)
      × (contains updated line ≡ true)
unfolding add_content build_block
add_content-again existing line block updated h =
    let (lacks, b, u) = add_content_parts existing line {block = block} {updated = updated} h in
    let eol = detect_eol existing in
    let pad = padding existing eol in
    let behind = eol ++ (end_marker ++ eol) in
    let has_marker : contains updated begin_marker ≡ true =
      rw (u, sym (append_assoc existing pad (begin_marker ++ (eol ++ (line ++ behind)))))
        (contains-append (existing ++ pad) begin_marker (eol ++ (line ++ behind))) in
    let has_line : contains updated line ≡ true =
      rw
        (
          u,
          sym (append_assoc begin_marker eol (line ++ behind)),
          sym (append_assoc pad (begin_marker ++ eol) (line ++ behind)),
          sym (append_assoc existing (pad ++ (begin_marker ++ eol)) (line ++ behind)),
        )
        (contains-append (existing ++ (pad ++ (begin_marker ++ eol))) line behind) in
    (λ other. rw has_marker, has_marker, has_line)
