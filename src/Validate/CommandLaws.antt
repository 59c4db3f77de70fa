-- ===== src/Validate/CommandLaws.antt =====
-- Which commands and descriptions pass.
use aliasdeck.Prelude.{
  ℕ, ◌≤◌, ◌≡◌, ◌≢◌, refl, sym, ◌∙◌, ◌↔◌, ◌⊎◌, Bool, false, List, [], ◌∷◌, none, any, All, arith,
}
use aliasdeck.Text.{Bytes}
use aliasdeck.Utf8.{runes, count_runes, trim_space, decode_from}
use aliasdeck.Utf8.Ascii.{any-runes}
use aliasdeck.Validate.Command.{
  is_bad_control, first_where, first_control_rune, check_command, check_description,
  max_command_len, max_description_len,
}

-- A tab, or a byte that is no control character; the bytes from 0x80 on are parts of longer runes.
abbrev pub IsPrintable : ℕ → Type 0
IsPrintable c = (c ≡ 9) ⊎ ((0x20 ≤ c) × (c ≢ 0x7F))

-- What `Command` lets pass.
abbrev pub IsValidCommand : Bytes → Type 0
IsValidCommand cmd =
    (trim_space cmd ≢ []) × (count_runes cmd ≤ max_command_len) × All IsPrintable cmd

-- What `Description` lets pass.
abbrev pub IsValidDescription : Bytes → Type 0
IsValidDescription desc = (count_runes desc ≤ max_description_len) × All IsPrintable desc

first_where_iff : (p : ℕ → Bool) (rs : List ℕ) → (first_where p rs ≡ none) ↔ (any p rs ≡ false)
unfolding first_where
first_where_iff p [] = (λ h. refl, λ h. refl)
first_where_iff p (r ∷ rs) =
    (λ h. ground (arith, first_where_iff p rs), λ h. ground (arith, first_where_iff p rs))

no_bad_control_iff : (s : Bytes) → (any is_bad_control s ≡ false) ↔ All IsPrintable s
unfolding is_bad_control
no_bad_control_iff [] = (λ h. tt, λ h. refl)
no_bad_control_iff (c ∷ s) =
    (λ h. ground (arith, no_bad_control_iff s), λ h. ground (arith, no_bad_control_iff s))

is_bad_control-high : (c : ℕ) → 0x80 ≤ c → is_bad_control c ≡ false
unfolding is_bad_control
is_bad_control-high c h = ground arith

-- The runes hold no bad control character exactly when the bytes do not.
pub first_control_rune_iff : (s : Bytes) → (first_control_rune s ≡ none) ↔ All IsPrintable s
unfolding first_control_rune
first_control_rune_iff s =
    let same_test = any-runes is_bad_control is_bad_control-high s in
    (
      λ h.
          (no_bad_control_iff s).0 (sym same_test ∙ (first_where_iff is_bad_control (runes s)).0 h),
      λ h. (first_where_iff is_bad_control (runes s)).1 (same_test ∙ (no_bad_control_iff s).1 h),
    )

-- A command passes exactly when it is not blank, has at most 4096 runes, and holds no control character
-- but tab: so it has no newline and no carriage return.
pub check_command_iff : (cmd : Bytes) → (check_command cmd ≡ none) ↔ IsValidCommand cmd
unfolding check_command
check_command_iff cmd = (
  λ h. (λ e. ground arith, ground arith, (first_control_rune_iff cmd).0 (ground arith)),
  λ h. ground (arith, (first_control_rune_iff cmd).1 h.2),
)

-- A description passes exactly when it has at most 256 runes and no control character but tab.
pub check_description_iff :
    (desc : Bytes) → (check_description desc ≡ none) ↔ IsValidDescription desc
unfolding check_description
check_description_iff [] =
    (λ h. (unfold count_runes runes decode_from in omega arith, tt), λ h. refl)
check_description_iff (c ∷ s) = (
  λ h. (ground arith, (first_control_rune_iff (c ∷ s)).0 (ground arith)),
  λ h. ground (arith, (first_control_rune_iff (c ∷ s)).1 h.1),
)
