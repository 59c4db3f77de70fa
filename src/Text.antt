-- ===== src/Text.antt =====
-- Go strings as lists of bytes, and the functions of the `strings` and `bytes` packages that the
-- program calls. An index of -1 is `none`.
pub mod Equality
pub mod Order
pub mod Search
pub mod Replace
pub mod Lines
use Prim.Native.Char.{code}
use aliasdeck.Prelude.{
  ℕ, zero, suc, ◌+◌, ◌-◌, String, Bool, true, false, ◌&&◌, ◌||◌, not, List, [], ◌∷◌, ◌++◌, Option,
  none, some, length, take, drop, drop_while, any, ◌==◌, ltb, if◌then◌else◌, is_some, ◌>>=◌,
}
use mathlib.Core.List.{reverse}
use mathlib.Core.Option

abbrev pub Bytes : Type 0
Bytes = List ℕ

-- The code points of a literal; these are its bytes, since the literals are ASCII.
abbrev pub codes : String → Bytes
codes String.[] = []
codes (String.◌∷◌ c s) = code c ∷ codes s

abbrev pub newline : ℕ
newline = 10

abbrev pub tab : ℕ
tab = 9

abbrev pub quote : ℕ
quote = 39

-- `s == t`
unfoldable pub same : Bytes → Bytes → Bool
same [] [] = true
same [] (d ∷ t) = false
same (c ∷ s) [] = false
same (c ∷ s) (d ∷ t) = c == d && same s t

-- Membership in a list of texts: a set that the source keeps as a map, or a slice.
unfoldable pub contains_text : List Bytes → Bytes → Bool
unfolding same
contains_text [] k = false
contains_text (x ∷ xs) k = same x k || contains_text xs k

-- `strings.Compare(s, t) <= 0`
unfoldable pub text_leb : Bytes → Bytes → Bool
text_leb [] t = true
text_leb (c ∷ s) [] = false
text_leb (c ∷ s) (d ∷ t) = ltb c d || (c == d && text_leb s t)

-- `strings.CutPrefix`: what follows the prefix.
unfoldable pub cut_prefix : Bytes → Bytes → Option Bytes
cut_prefix [] s = some s
cut_prefix (p ∷ ps) [] = none
cut_prefix (p ∷ ps) (c ∷ s) = let rest = cut_prefix ps s in if p == c then rest else none

unfoldable pub has_prefix : Bytes → Bytes → Bool
unfolding cut_prefix
has_prefix s p = is_some (cut_prefix p s)

unfoldable pub trim_prefix : Bytes → Bytes → Bytes
unfolding cut_prefix
trim_prefix s p = elim (cut_prefix p s) [ none ↦ s | some rest ↦ rest ]

unfoldable pub has_suffix : Bytes → Bytes → Bool
unfolding has_prefix
has_suffix s p = has_prefix (reverse s) (reverse p)

unfoldable pub trim_suffix : Bytes → Bytes → Bytes
unfolding cut_prefix
trim_suffix s p = elim (cut_prefix (reverse p) (reverse s)) [ none ↦ s | some rest ↦ reverse rest ]

-- `strings.Cut`: the text before the first `sep`, and the text behind it.
unfoldable pub cut : Bytes → Bytes → Option (Bytes × Bytes)
unfolding cut_prefix
cut sep [] = elim (cut_prefix sep []) [ none ↦ none | some rest ↦ some ([], rest) ]
cut sep (c ∷ s) =
    let later = cut sep s in
    elim (cut_prefix sep (c ∷ s)) [
      | some rest ↦ some ([], rest)
      | none ↦ elim later [ none ↦ none | some (before, rest) ↦ some (c ∷ before, rest) ]
    ]

-- `strings.Index`
unfoldable pub index : Bytes → Bytes → Option ℕ
unfolding cut
index s sep = elim (cut sep s) [ none ↦ none | some (before, rest) ↦ some (length before) ]

-- `strings.Contains`
unfoldable pub contains : Bytes → Bytes → Bool
unfolding cut
contains s sep = is_some (cut sep s)

-- `strings.Replace(s, old, new, 1)`
unfoldable pub replace_first : Bytes → Bytes → Bytes → Bytes
unfolding cut
replace_first s old new = elim (cut old s) [
  | none ↦ s
  | some (before, rest) ↦ before ++ new ++ rest
]

-- `strings.ReplaceAll` for a text `old` that is not empty. The first argument counts the bytes of
-- a match that are still to be passed over.
unfoldable pub replace_from : ℕ → Bytes → Bytes → Bytes → Bytes
replace_from k old new [] = []
replace_from (suc k) old new (c ∷ s) = replace_from k old new s
replace_from zero old new (c ∷ s) =
    let matched = new ++ replace_from (length old - 1) old new s in
    let copied = c ∷ replace_from zero old new s in
    if has_prefix (c ∷ s) old then matched else copied

unfoldable pub replace_all : Bytes → Bytes → Bytes → Bytes
unfolding replace_from has_prefix
replace_all s old new = replace_from 0 old new s

-- `strings.Split(s, sep)` at a separator of one byte.
unfoldable pub split : ℕ → Bytes → List Bytes
split sep [] = [] ∷ []
split sep (c ∷ s) =
    let rest = split sep s in
    if c == sep
    then [] ∷ rest
    else elim rest [ [] ↦ (c ∷ []) ∷ [] | part ∷ parts ↦ (c ∷ part) ∷ parts ]

-- `strings.Join(parts, sep)`
unfoldable pub join : Bytes → List Bytes → Bytes
join sep [] = []
join sep (p ∷ []) = p
join sep (p ∷ q ∷ parts) = p ++ sep ++ join sep (q ∷ parts)

-- The cut set " \t" of `strings.TrimLeft` and `strings.IndexAny`.
unfoldable pub is_blank : ℕ → Bool
is_blank c = c == 32 || c == tab

unfoldable pub trim_left_blank : Bytes → Bytes
unfolding is_blank
trim_left_blank = drop_while is_blank

-- `strings.IndexByte`, by a test on the byte.
unfoldable pub index_where : (ℕ → Bool) → Bytes → Option ℕ
index_where p [] = none
index_where p (c ∷ s) =
    let later = index_where p s in if p c then some 0 else Option.map (λ n. suc n) later

-- `strings.ToLower` on one byte of an ASCII text.
unfoldable pub to_lower_byte : ℕ → ℕ
to_lower_byte c = if not (ltb c 65) && not (ltb 90 c) then c + 32 else c
