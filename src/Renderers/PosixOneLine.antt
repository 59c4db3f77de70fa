-- ===== src/Renderers/PosixOneLine.antt =====
-- The lines of a generated file are one line each.
use aliasdeck.Prelude.{
  ℕ, ◌≡◌, inl, inr, true, List, [], ◌∷◌, ◌++◌, length, is_empty, All, Bool-cases, if◌then◌else◌,
  arith,
}
use mathlib.Core.List.{map, flat_map}
use aliasdeck.Text.{Bytes, codes, same, join}
use aliasdeck.Utf8.Clean.{All-append}
use aliasdeck.Domain.Shell.{Shell, shell_zsh, platform_valid, shell_valid}
use aliasdeck.Domain.Alias.{Alias}
use aliasdeck.Domain.Resolved.{ResolvedConfig, sort_aliases}
use aliasdeck.Validate.Issues.{alias_issues}
use aliasdeck.Validate.NameLaws.{IsWord, check_name_iff}
use aliasdeck.Validate.CommandLaws.{IsPrintable, check_command_iff}
use aliasdeck.Validate.Clean.{alias_issues-IsCleanAlias}
use aliasdeck.Renderers.Quote.{sanitize_comment}
use aliasdeck.Renderers.QuoteLaws.{sanitize_comment-All}
use aliasdeck.Renderers.PosixLines.{
  header_lines, unalias_lines, managed_names_line, description_lines, definition_line, alias_lines,
  hook_lines, posix_lines,
}
use aliasdeck.Renderers.OneLine.{
  IsOneLine, IsOneLine-of_comment, IsOneLine-of_printable, IsOneLine-of_word, IsOneLine-append,
  IsOneLine-quote_posix, IsOneLine-of_platform, IsOneLine-of_shell, fixed_IsOneLine,
  IsOneLine-comment, fixed-append, IsOneLine-device_text, IsOneLine-revision_text,
  IsOneLine-count_text,
}

pub header_lines-IsOneLine :
    (cfg : ResolvedConfig) (count : ℕ)
    → IsOneLine cfg.device.platform
    → IsOneLine cfg.device.shell
    → IsOneLine cfg.revision
    → All IsOneLine (header_lines cfg count)
unfolding header_lines
header_lines-IsOneLine cfg count p s r =
    let (b, c, e) = fixed_IsOneLine in
    let dev = IsOneLine-comment _ (IsOneLine-device_text cfg p s) in
    let rev = IsOneLine-comment _ (IsOneLine-revision_text cfg r) in
    let num = IsOneLine-comment _ (IsOneLine-count_text count) in
    (b, (omega arith, (dev, (rev, (num, (omega arith, (c, (e, tt))))))))

unalias_lines-IsOneLine : All IsOneLine unalias_lines
unfolding unalias_lines
unalias_lines-IsOneLine = omega arith

hook_lines-IsOneLine : All IsOneLine hook_lines
unfolding hook_lines
hook_lines-IsOneLine = omega arith

-- The texts of an alias that passed its checks.
pub record IsSafeAlias (a : Alias) : Type 0 where
  pub word : IsWord a.name
  pub printable : All IsPrintable a.command

IsSafeAlias-of_clean : (a : Alias) (sh : Shell) → alias_issues a sh ≡ [] → IsSafeAlias a
IsSafeAlias-of_clean a sh h =
    let c = alias_issues-IsCleanAlias a sh h in
    record {
      word = ((check_name_iff a.name sh).0 c.name_ok).0;
      printable = ((check_command_iff a.command).0 c.command_ok).2;
    }

IsOneLine-join :
    (aliases : List Alias)
    → All IsSafeAlias aliases
    → IsOneLine (join (codes " ") (map (λ a. a.name) aliases))
unfolding join
IsOneLine-join [] h = tt
IsOneLine-join (a ∷ []) h = IsOneLine-of_word a.name h.0.word
IsOneLine-join (a ∷ b ∷ aliases) h =
    IsOneLine-append (a.name ++ codes " ") _
      (IsOneLine-append a.name (codes " ") (IsOneLine-of_word a.name h.0.word) (omega arith))
      (IsOneLine-join (b ∷ aliases) h.1)

pub managed_names_line-IsOneLine :
    (aliases : List Alias) → All IsSafeAlias aliases → IsOneLine (managed_names_line aliases)
unfolding managed_names_line
managed_names_line-IsOneLine aliases h =
    fixed-append "ALIASDECK_MANAGED_ALIAS_NAMES=" _ (omega arith)
      (IsOneLine-quote_posix _ (IsOneLine-join aliases h))

pub definition_line-IsOneLine : (a : Alias) → IsSafeAlias a → IsOneLine (definition_line a)
unfolding definition_line
definition_line-IsOneLine a h = fixed-append "alias " _ (omega arith) (
    IsOneLine-append a.name _ (IsOneLine-of_word a.name h.word) (
      fixed-append "=" _ (omega arith)
        (IsOneLine-quote_posix a.command (IsOneLine-of_printable a.command h.printable))))

pub description_lines-IsOneLine : (d : Bytes) → All IsOneLine (description_lines d)
unfolding description_lines
description_lines-IsOneLine d = elim (Bool-cases (is_empty (sanitize_comment d))) [
  | inl e ↦ rw e tt
  | inr e ↦
      rw e (
        IsOneLine-comment _ (IsOneLine-of_comment (sanitize_comment d) (sanitize_comment-All d)),
        tt,
      )
]

alias_lines-IsOneLine : (a : Alias) → IsSafeAlias a → All IsOneLine (alias_lines a)
unfolding alias_lines
alias_lines-IsOneLine a h = (
  tt,
  All-append IsOneLine (description_lines a.description) _
      (description_lines-IsOneLine a.description) (definition_line-IsOneLine a h, tt),
)

All-alias_lines-IsOneLine :
    (aliases : List Alias) → All IsSafeAlias aliases → All IsOneLine (flat_map alias_lines aliases)
unfolding flat_map
All-alias_lines-IsOneLine [] h = tt
All-alias_lines-IsOneLine (a ∷ aliases) h =
    All-append IsOneLine (alias_lines a) _ (alias_lines-IsOneLine a h.0)
      (All-alias_lines-IsOneLine aliases h.1)

optional_hook-IsOneLine :
    (sh : Shell) → All IsOneLine (if same sh shell_zsh then hook_lines else [])
optional_hook-IsOneLine sh = elim (Bool-cases (same sh shell_zsh)) [
  | inl e ↦ rw e hook_lines-IsOneLine
  | inr e ↦ rw e tt
]

pub All-safe :
    (sh : Shell) (aliases : List Alias)
    → All (λ a. alias_issues a sh ≡ []) aliases
    → All IsSafeAlias aliases
All-safe sh [] h = tt
All-safe sh (a ∷ aliases) h = (IsSafeAlias-of_clean a sh h.0, All-safe sh aliases h.1)

pub posix_lines-IsOneLine :
    (sh : Shell) (cfg : ResolvedConfig)
    → platform_valid cfg.device.platform ≡ true
    → shell_valid cfg.device.shell ≡ true
    → All IsSafeAlias (sort_aliases cfg.aliases)
    → IsOneLine cfg.revision
    → All IsOneLine (posix_lines sh cfg)
unfolding posix_lines
posix_lines-IsOneLine sh cfg p s safe r =
    let aliases = sort_aliases cfg.aliases in
    All-append IsOneLine (header_lines cfg (length aliases)) _
      (header_lines-IsOneLine cfg (length aliases) (IsOneLine-of_platform _ p)
        (IsOneLine-of_shell _ s) r)
      (All-append IsOneLine unalias_lines _ unalias_lines-IsOneLine (
        managed_names_line-IsOneLine aliases safe,
        (
          omega arith,
          All-append IsOneLine (flat_map alias_lines aliases) _
              (All-alias_lines-IsOneLine aliases safe) (optional_hook-IsOneLine sh),
        ),
      ))
