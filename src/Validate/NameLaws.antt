-- ===== src/Validate/NameLaws.antt =====
-- Which names pass.
use aliasdeck.Prelude.{
  ℕ, ◌≤◌, ◌<◌, ◌≡◌, ◌≢◌, refl, sym, ◌∙◌, ◌↔◌, ◌⊎◌, Bool, true, false, List, [], ◌∷◌, none, length,
  all, All, In, ltb, arith,
}
use mathlib.Core.Path.{subst}
use aliasdeck.Text.{Bytes}
use aliasdeck.Text.Equality.{same_iff, contains_text_iff}
use aliasdeck.Utf8.{runes, count_runes}
use aliasdeck.Utf8.Ascii.{all-runes, runes-ascii}
use aliasdeck.Domain.Shell.{Shell, shell_powershell}
use aliasdeck.Validate.Name.{
  is_letter, is_inner, valid_runes_from, valid_name_runes, posix_reserved, powershell_reserved,
  to_lower_ascii, is_reserved_word, check_name, max_name_len,
}

abbrev pub Between : ℕ → ℕ → ℕ → Type 0
Between lo hi c = (lo ≤ c) × (c ≤ hi)

-- An ASCII letter or an underscore.
abbrev pub IsFirstByte : ℕ → Type 0
IsFirstByte c = Between b'a' b'z' c ⊎ Between b'A' b'Z' c ⊎ (c ≡ b'_')

-- Such a byte, or a digit, a dot or a hyphen.
abbrev pub IsNameByte : ℕ → Type 0
IsNameByte c = IsFirstByte c ⊎ Between b'0' b'9' c ⊎ (c ≡ b'.') ⊎ (c ≡ b'-')

abbrev pub IsWord : Bytes → Type 0
IsWord [] = ⊥
IsWord (c ∷ rest) = IsFirstByte c × All IsNameByte rest

-- The reserved words of a shell; PowerShell reads a name without regard to case.
abbrev pub IsReserved : Bytes → Shell → Type 0
IsReserved name sh =
    ((sh ≡ shell_powershell) × In (to_lower_ascii name) powershell_reserved)
    ⊎ ((sh ≢ shell_powershell) × In name posix_reserved)

-- What `Name` lets pass.
abbrev pub IsValidName : Bytes → Shell → Type 0
IsValidName name sh = IsWord name × (length name ≤ max_name_len) × ¬ (IsReserved name sh)

All-of_all : (s : Bytes) → all (λ c. ltb c 0x80) s ≡ true → All (λ c. c < 0x80) s
All-of_all [] h = tt
All-of_all (c ∷ s) h = ground (arith, All-of_all s)

valid_runes_from-ascii :
    (first : Bool) (rs : List ℕ)
    → valid_runes_from first rs ≡ true
    → all (λ c. ltb c 0x80) rs ≡ true
unfolding valid_runes_from is_letter is_inner
valid_runes_from-ascii first [] h = refl
valid_runes_from-ascii first (r ∷ rs) h = ground (arith, valid_runes_from-ascii false rs)

-- A name of allowed characters is ASCII, so its runes are its bytes.
runes_of_valid :
    (name : Bytes) → valid_name_runes name ≡ true → All (λ c. c < 0x80) name × (runes name ≡ name)
unfolding valid_name_runes
runes_of_valid name h =
    let ascii : All (λ c. c < 0x80) name = All-of_all name (
      sym (all-runes (λ c. ltb c 0x80) (λ c big. ground arith) name)
      ∙ valid_runes_from-ascii true (runes name) h) in
    (ascii, runes-ascii name ascii)

valid_rest_iff : (rs : List ℕ) → (valid_runes_from false rs ≡ true) ↔ All IsNameByte rs
unfolding valid_runes_from is_letter is_inner
valid_rest_iff [] = (λ h. tt, λ h. refl)
valid_rest_iff (r ∷ rs) =
    (λ h. ground (arith, valid_rest_iff rs), λ h. ground (arith, valid_rest_iff rs))

valid_first_iff : (r : ℕ) (rs : List ℕ) → (valid_runes_from true (r ∷ rs) ≡ true) ↔ IsWord (r ∷ rs)
unfolding valid_runes_from is_letter is_inner
valid_first_iff r rs =
    (λ h. ground (arith, valid_rest_iff rs), λ h. ground (arith, valid_rest_iff rs))

All-ascii_of_name : (s : Bytes) → All IsNameByte s → All (λ c. c < 0x80) s
All-ascii_of_name [] h = tt
All-ascii_of_name (c ∷ s) h = (ground arith, All-ascii_of_name s h.1)

ascii_of_IsWord : (name : Bytes) → IsWord name → All (λ c. c < 0x80) name
ascii_of_IsWord [] h = tt
ascii_of_IsWord (c ∷ s) h = (ground arith, All-ascii_of_name s h.1)

valid_name_runes_lem : (name : Bytes) → valid_runes_from true (runes name) ≡ valid_name_runes name
unfolding valid_name_runes
valid_name_runes_lem name = refl

valid_name_runes_iff : (c : ℕ) (s : Bytes) → (valid_name_runes (c ∷ s) ≡ true) ↔ IsWord (c ∷ s)
valid_name_runes_iff c s = (
  λ h. (valid_first_iff c s).0 (
      subst (λ rs. valid_runes_from true rs ≡ true) (runes_of_valid (c ∷ s) h).1
        (valid_name_runes_lem (c ∷ s) ∙ h)),
  λ h.
      sym (valid_name_runes_lem (c ∷ s))
      ∙ rw (runes-ascii (c ∷ s) (ascii_of_IsWord (c ∷ s) h)) ((valid_first_iff c s).1 h),
)

is_reserved_word_iff :
    (name : Bytes) (sh : Shell) → (is_reserved_word name sh ≡ none) ↔ ¬ (IsReserved name sh)
unfolding is_reserved_word
is_reserved_word_iff name sh = (
  λ h r. ground (
    arith,
    same_iff sh shell_powershell,
    contains_text_iff powershell_reserved (to_lower_ascii name),
    contains_text_iff posix_reserved name,
  ),
  λ h. ground (
    arith,
    same_iff sh shell_powershell,
    contains_text_iff powershell_reserved (to_lower_ascii name),
    contains_text_iff posix_reserved name,
  ),
)

-- The rest of `Name` for a name that is not empty.
count_runes_of_IsWord : (name : Bytes) → IsWord name → count_runes name ≡ length name
unfolding count_runes
count_runes_of_IsWord name h = rw (runes-ascii name (ascii_of_IsWord name h))

-- A name passes exactly when it is a word of ASCII letters, digits, underscores, dots and hyphens that
-- begins with a letter or underscore, has at most 64 bytes, and is no reserved word of the shell.
pub check_name_iff : (name : Bytes) (sh : Shell) → (check_name name sh ≡ none) ↔ IsValidName name sh
unfolding check_name
check_name_iff [] sh = (λ h. cc, λ h. absurd h.0)
check_name_iff (c ∷ s) sh = (
  λ h.
      let valid : valid_name_runes (c ∷ s) ≡ true = ground arith in
      let word = (valid_name_runes_iff c s).0 valid in
      (
        word,
        ground (arith, count_runes_of_IsWord (c ∷ s) word),
        (is_reserved_word_iff (c ∷ s) sh).0 (ground arith),
      ),
  λ h. ground (
    arith,
    (valid_name_runes_iff c s).1 h.0,
    count_runes_of_IsWord (c ∷ s) h.0,
    (is_reserved_word_iff (c ∷ s) sh).1 h.2,
  ),
)
