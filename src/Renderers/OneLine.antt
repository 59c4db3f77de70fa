-- ===== src/Renderers/OneLine.antt =====
-- Texts of the generated file that are one line.
use aliasdeck.Prelude.{
  ℕ, zero, suc, ◌+◌, ◌/◌, ◌%◌, String, ◌≡◌, ◌≢◌, sym, inl, inr, true, List, [], ◌∷◌, ◌++◌, is_empty,
  All, Bool-cases, ◌==◌, arith,
}
use mathlib.Core.Path.{subst}
use aliasdeck.Text.{Bytes, codes, newline, same}
use aliasdeck.Text.Equality.{same_iff}
use aliasdeck.Text.Search.{Lacks}
use aliasdeck.Utf8.Clean.{All-append}
use aliasdeck.Domain.Shell.{
  Shell, Platform, shell_zsh, shell_bash, shell_powershell, platform_macos, platform_linux,
  platform_windows, platform_valid, shell_valid,
}
use aliasdeck.Domain.Resolved.{ResolvedConfig}
use aliasdeck.Validate.NameLaws.{IsWord, IsNameByte}
use aliasdeck.Validate.CommandLaws.{IsPrintable}
use aliasdeck.Renderers.Quote.{quote_posix, sanitize_comment}
use aliasdeck.Renderers.QuoteLaws.{IsCommentByte, sanitize_comment-All, quote_posix-Lacks}
use aliasdeck.Renderers.Header.{
  digits, decimal, banner_text, device_text, revision_text, count_text, changes_text, edit_text,
}
use aliasdeck.Renderers.PosixLines.{comment}

-- Neither a newline nor a carriage return.
abbrev pub IsOneLine : Bytes → Type 0
IsOneLine = All (λ c. (c ≢ 10) × (c ≢ 13))

pub IsOneLine-of_comment : (s : Bytes) → All IsCommentByte s → IsOneLine s
IsOneLine-of_comment [] h = tt
IsOneLine-of_comment (c ∷ s) h = (ground arith, IsOneLine-of_comment s h.1)

IsOneLine-of_Lacks : (s : Bytes) → Lacks 10 s → Lacks 13 s → IsOneLine s
IsOneLine-of_Lacks [] h k = tt
IsOneLine-of_Lacks (c ∷ s) h k = ((h.0, k.0), IsOneLine-of_Lacks s h.1 k.1)

pub Lacks-of_IsOneLine : (s : Bytes) → IsOneLine s → Lacks 10 s × Lacks 13 s
Lacks-of_IsOneLine [] h = (tt, tt)
Lacks-of_IsOneLine (c ∷ s) h = let (n, r) = Lacks-of_IsOneLine s h.1 in ((h.0.0, n), (h.0.1, r))

pub IsOneLine-of_printable : (s : Bytes) → All IsPrintable s → IsOneLine s
IsOneLine-of_printable [] h = tt
IsOneLine-of_printable (c ∷ s) h = (ground arith, IsOneLine-of_printable s h.1)

IsOneLine-of_name : (s : Bytes) → All IsNameByte s → IsOneLine s
IsOneLine-of_name [] h = tt
IsOneLine-of_name (c ∷ s) h = (ground arith, IsOneLine-of_name s h.1)

pub IsOneLine-of_word : (s : Bytes) → IsWord s → IsOneLine s
IsOneLine-of_word [] h = tt
IsOneLine-of_word (c ∷ s) h = (ground arith, IsOneLine-of_name s h.1)

pub IsOneLine-append : (s t : Bytes) → IsOneLine s → IsOneLine t → IsOneLine (s ++ t)
IsOneLine-append = All-append (λ c. (c ≢ 10) × (c ≢ 13))

pub IsOneLine-quote_posix : (s : Bytes) → IsOneLine s → IsOneLine (quote_posix s)
IsOneLine-quote_posix s h =
    let (n, r) = Lacks-of_IsOneLine s h in
    IsOneLine-of_Lacks (quote_posix s) (quote_posix-Lacks 10 s (omega arith) (omega arith) n)
      (quote_posix-Lacks 13 s (omega arith) (omega arith) r)

pub IsOneLine-of_platform : (p : Platform) → platform_valid p ≡ true → IsOneLine p
unfolding platform_valid
IsOneLine-of_platform p h = elim (Bool-cases (same p platform_macos)) [
  | inl e ↦ subst IsOneLine (sym ((same_iff p platform_macos).0 e)) (omega arith)
  | inr e ↦ elim (Bool-cases (same p platform_linux)) [
    | inl f ↦ subst IsOneLine (sym ((same_iff p platform_linux).0 f)) (omega arith)
    | inr f ↦ subst IsOneLine (sym ((same_iff p platform_windows).0 (rw (e, f) at h))) (omega arith)
  ]
]

pub IsOneLine-of_shell : (s : Shell) → shell_valid s ≡ true → IsOneLine s
unfolding shell_valid
IsOneLine-of_shell s h = elim (Bool-cases (same s shell_zsh)) [
  | inl e ↦ subst IsOneLine (sym ((same_iff s shell_zsh).0 e)) (omega arith)
  | inr e ↦ elim (Bool-cases (same s shell_bash)) [
    | inl f ↦ subst IsOneLine (sym ((same_iff s shell_bash).0 f)) (omega arith)
    | inr f ↦ subst IsOneLine (sym ((same_iff s shell_powershell).0 (rw (e, f) at h))) (omega arith)
  ]
]

IsOneLine-digits : (fuel n : ℕ) (out : Bytes) → IsOneLine out → IsOneLine (digits fuel n out)
unfolding digits
IsOneLine-digits zero n out h = h
IsOneLine-digits (suc fuel) n out h = elim (Bool-cases (n == 0)) [
  | inl e ↦ rw e h
  | inr e ↦ rw e (IsOneLine-digits fuel (n / 10) ((b'0' + n % 10) ∷ out) (omega arith, h))
]

IsOneLine-decimal : (n : ℕ) → IsOneLine (decimal n)
unfolding decimal
IsOneLine-decimal n = elim (Bool-cases (n == 0)) [
  | inl e ↦ rw e (omega arith)
  | inr e ↦ rw e (IsOneLine-digits 20 n [] tt)
]

pub fixed_IsOneLine :
    IsOneLine (comment banner_text)
    × IsOneLine (comment changes_text)
    × IsOneLine (comment edit_text)
unfolding banner_text changes_text edit_text
fixed_IsOneLine = omega arith

pub IsOneLine-comment : (s : Bytes) → IsOneLine s → IsOneLine (comment s)
IsOneLine-comment s h = ground arith

pub All-Lacks : (ls : List Bytes) → All IsOneLine ls → All (Lacks newline) ls
All-Lacks [] h = tt
All-Lacks (l ∷ ls) h = ((Lacks-of_IsOneLine l h.0).0, All-Lacks ls h.1)

-- A literal in front.
pub fixed-append :
    (s : String) (t : Bytes) → IsOneLine (codes s) → IsOneLine t → IsOneLine (codes s ++ t)
fixed-append s t h k = IsOneLine-append (codes s) t h k

pub IsOneLine-device_text :
    (cfg : ResolvedConfig)
    → IsOneLine cfg.device.platform
    → IsOneLine cfg.device.shell
    → IsOneLine (device_text cfg)
unfolding device_text
IsOneLine-device_text cfg p s =
    let name = sanitize_comment cfg.device.name in
    elim (Bool-cases (is_empty name)) [
      | inl e ↦ rw e (
          fixed-append "Device:   " _ (omega arith) (
            IsOneLine-append cfg.device.platform _ p
              (fixed-append " / " cfg.device.shell (omega arith) s)))
      | inr e ↦ rw e (
          fixed-append "Device:   " _ (omega arith) (
            IsOneLine-append name _
              (IsOneLine-of_comment name (sanitize_comment-All cfg.device.name))
              (fixed-append " (" _ (omega arith) (
                IsOneLine-append cfg.device.platform _ p (
                  fixed-append " / " _ (omega arith)
                    (IsOneLine-append cfg.device.shell (codes ")") s (omega arith)))))))
    ]

pub IsOneLine-revision_text :
    (cfg : ResolvedConfig) → IsOneLine cfg.revision → IsOneLine (revision_text cfg)
unfolding revision_text
IsOneLine-revision_text cfg r = elim (Bool-cases (is_empty cfg.revision)) [
  | inl e ↦ rw e (omega arith)
  | inr e ↦ rw e (fixed-append "Revision: " cfg.revision (omega arith) r)
]

pub IsOneLine-count_text : (count : ℕ) → IsOneLine (count_text count)
unfolding count_text
IsOneLine-count_text count =
    fixed-append "Aliases:  " (decimal count) (omega arith) (IsOneLine-decimal count)
