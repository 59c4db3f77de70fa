-- ===== src/Utf8.antt =====
-- The runes of a Go string, as `for range`, `utf8.RuneCountInString`, `strings.Map` and
-- `strings.TrimSpace` see them. A byte that begins no valid encoding is the rune U+FFFD.
pub mod Ascii
pub mod Clean
pub mod Trim
use aliasdeck.Prelude.{
  ℕ, zero, suc, ◌+◌, ◌-◌, ◌*◌, ◌/◌, ◌%◌, ◌≤◌, ◌<◌, String, ◌≡◌, ◌≢◌, refl, sym, ap, ◌∙◌, ◌≡⟨◌⟩◌, ◌∎,
  ◌↔◌, ◌⊎◌, inl, inr, Bool, true, false, ◌&&◌, ◌||◌, not, List, [], ◌∷◌, ◌++◌, append_assoc,
  append-nil, Option, none, some, length, take, drop, drop_while, take_while, any, all, keep,
  is_empty, All, In, ==_iff, and_parts, or_parts, Bool-cases, Option-cases, ltb, leb, ◌==◌,
  if◌then◌else◌, is_some, ◌>>=◌, arith,
}
use mathlib.Core.List.{map, reverse, flat_map}
use aliasdeck.Text.{Bytes}

-- A rune with the bytes that it was read from.
pub record Rune : Type 0 where
  pub value : ℕ
  pub bytes : Bytes

abbrev pub rune_error : ℕ
rune_error = 0xFFFD

unfoldable pub continues : ℕ → Bool
continues b = leb 0x80 b && leb b 0xBF

-- Whether the second byte `b` may stand behind the first byte `a`.
unfoldable pub second : ℕ → ℕ → Bool
second a b =
    leb (if a == 0xE0 then 0xA0 else if a == 0xF0 then 0x90 else 0x80) b
    && leb b (if a == 0xED then 0x9F else if a == 0xF4 then 0x8F else 0xBF)

-- The rune that begins at a byte of at least 0x80, and how many bytes behind that byte belong to it.
unfoldable pub two_bytes : ℕ → Bytes → ℕ × ℕ
unfolding second
two_bytes a [] = (rune_error, 0)
two_bytes a (b ∷ s) = if second a b then ((a - 0xC0) * 64 + (b - 0x80), 1) else (rune_error, 0)

unfoldable pub three_bytes : ℕ → Bytes → ℕ × ℕ
unfolding second continues
three_bytes a (b ∷ c ∷ s) =
    if second a b && continues c
    then ((a - 0xE0) * 4096 + (b - 0x80) * 64 + (c - 0x80), 2)
    else (rune_error, 0)
three_bytes a _ = (rune_error, 0)

unfoldable pub four_bytes : ℕ → Bytes → ℕ × ℕ
unfolding second continues
four_bytes a (b ∷ c ∷ d ∷ s) =
    if second a b && continues c && continues d
    then ((a - 0xF0) * 262144 + (b - 0x80) * 4096 + (c - 0x80) * 64 + (d - 0x80), 3)
    else (rune_error, 0)
four_bytes a _ = (rune_error, 0)

-- `utf8.DecodeRuneInString`
unfoldable pub decode_rune : ℕ → Bytes → ℕ × ℕ
unfolding two_bytes three_bytes four_bytes
decode_rune a s =
    if ltb a 0x80
    then (a, 0)
    else if ltb a 0xC2
    then (rune_error, 0)
    else if ltb a 0xE0
    then two_bytes a s
    else if ltb a 0xF0
    then three_bytes a s
    else if ltb a 0xF5
    then four_bytes a s
    else (rune_error, 0)

-- The first argument counts the bytes of the last rune that are still to be passed over.
unfoldable pub decode_from : ℕ → Bytes → List Rune
decode_from k [] = []
decode_from (suc k) (a ∷ s) = decode_from k s
decode_from zero (a ∷ s) =
    let (value, more) = decode_rune a s in
    record { value = value; bytes = a ∷ take more s } ∷ decode_from more s

abbrev pub decode : Bytes → List Rune
decode s = decode_from 0 s

-- The values that `for _, r := range s` runs over.
unfoldable pub runes : Bytes → List ℕ
unfolding decode_from
runes s = map (λ r. r.value) (decode s)

-- `utf8.RuneCountInString`
unfoldable pub count_runes : Bytes → ℕ
unfolding runes
count_runes s = length (runes s)

-- `utf8.AppendRune`
unfoldable pub encode_rune : ℕ → Bytes
encode_rune r =
    if ltb r 0x80
    then r ∷ []
    else if ltb r 0x800
    then (0xC0 + r / 64) ∷ (0x80 + r % 64) ∷ []
    else if ltb r 0x10000
    then (0xE0 + r / 4096) ∷ (0x80 + r / 64 % 64) ∷ (0x80 + r % 64) ∷ []
    else (0xF0 + r / 262144) ∷ (0x80 + r / 4096 % 64) ∷ (0x80 + r / 64 % 64) ∷ (0x80 + r % 64) ∷ []

-- `unicode.IsSpace`
unfoldable pub is_space : ℕ → Bool
is_space r =
    (leb 9 r && leb r 13)
    || r == 32
    || r == 0x85
    || r == 0xA0
    || r == 0x1680
    || (leb 0x2000 r && leb r 0x200A)
    || r == 0x2028
    || r == 0x2029
    || r == 0x202F
    || r == 0x205F
    || r == 0x3000

-- `unicode.IsControl`
unfoldable pub is_control : ℕ → Bool
is_control r = leb r 0x1F || (leb 0x7F r && leb r 0x9F)

unfoldable pub space_rune : Rune → Bool
space_rune r = is_space r.value

unfoldable pub trim_runes : List Rune → List Rune
trim_runes rs = reverse (drop_while space_rune (reverse (drop_while space_rune rs)))

-- `strings.TrimSpace`: a part of the text, from the first to the last rune that is no space.
unfoldable pub trim_space : Bytes → Bytes
trim_space s = flat_map (λ r. r.bytes) (trim_runes (decode s))
