-- ===== src/Renderers/Unmarked.antt =====
-- A text that is rendered for bash or zsh has no marker of an earlier migration.
use aliasdeck.Prelude.{
  ℕ, ◌≡◌, refl, ap, ◌∙◌, inl, inr, true, false, List, [], ◌∷◌, ◌++◌, append_assoc, none, All, any,
  drop, length, is_empty, Bool-cases, Option-cases, if◌then◌else◌, ◌==◌, arith,
}
use aliasdeck.Prelude.{ok}
use mathlib.Core.List.{flat_map}
use aliasdeck.Text.{Bytes, codes, newline, split, cut, cut_prefix, has_prefix, same}
use aliasdeck.Text.Search.{cut_sound}
use aliasdeck.Utf8.Clean.{All-append}
use aliasdeck.Domain.Shell.{Shell, shell_zsh, is_posix}
use aliasdeck.Domain.Alias.{Alias}
use aliasdeck.Domain.Resolved.{ResolvedConfig, sort_aliases}
use aliasdeck.Renderers.Quote.{sanitize_comment}
use aliasdeck.Renderers.Legacy.{legacy_migration_prefix}
use aliasdeck.Renderers.LegacyFile.{parse_current_legacy_migration}
use aliasdeck.Renderers.Render.{render}
use aliasdeck.Renderers.OneLine.{IsOneLine}
use aliasdeck.Renderers.PosixLines.{
  header_lines, unalias_lines, managed_names_line, description_lines, definition_line, alias_lines,
  hook_lines, posix_lines,
}
use aliasdeck.Renderers.Safety.{split-render}

-- What the second line of the marker begins with, and no line of a rendered text.
abbrev pub marker_start : Bytes
marker_start = codes "  A"

abbrev pub IsFlush : Bytes → Type 0
IsFlush l = has_prefix l marker_start ≡ false

any-All : (ls : List Bytes) → All IsFlush ls → any (λ l. has_prefix l marker_start) ls ≡ false
any-All [] h = refl
any-All (l ∷ ls) h = ground (arith, h.0, any-All ls h.1)

abbrev put : ℕ → List Bytes → List Bytes
put c [] = (c ∷ []) ∷ []
put c (part ∷ parts) = (c ∷ part) ∷ parts

any-put :
    (c : ℕ) (rest : List Bytes)
    → any (λ l. has_prefix l marker_start) (drop 1 rest) ≡ true
    → any (λ l. has_prefix l marker_start) (drop 1 (put c rest)) ≡ true
any-put c [] h = h
any-put c (part ∷ parts) h = h

any-drop :
    (rest : List Bytes)
    → any (λ l. has_prefix l marker_start) (drop 1 rest) ≡ true
    → any (λ l. has_prefix l marker_start) rest ≡ true
any-drop [] h = h
any-drop (l ∷ rest) h = ground (arith, h)

split-cons :
    (c : ℕ) (s : Bytes)
    → split newline (c ∷ s)
      ≡ (if c == newline then [] ∷ split newline s else put c (split newline s))
unfolding split
split-cons c s =
    elim (split newline s)
      as (λ rest.
        (if c == newline
          then [] ∷ rest
          else elim rest [ [] ↦ (c ∷ []) ∷ [] | part ∷ parts ↦ (c ∷ part) ∷ parts ])
        ≡ (if c == newline then [] ∷ rest else put c rest)) [ [] ↦ refl | part ∷ parts ↦ refl ]

put-marker_start :
    (rest : List Bytes)
    → any (λ l. has_prefix l marker_start) (put 32 (put 32 (put b'A' rest))) ≡ true
unfolding has_prefix cut_prefix
put-marker_start [] = refl
put-marker_start (part ∷ parts) = refl

-- A line that begins behind a newline is a line of the text, and not the first.
split-marker :
    (x y : Bytes)
    → any
        (λ l. has_prefix l marker_start)
        (drop 1 (split newline (x ++ newline ∷ marker_start ++ y)))
      ≡ true
split-marker [] y =
    rw
      (
        split-cons newline (marker_start ++ y),
        split-cons 32 (32 ∷ b'A' ∷ y),
        split-cons 32 (b'A' ∷ y),
        split-cons b'A' y,
      )
      (put-marker_start (split newline y))
split-marker (d ∷ x) y =
    let s = x ++ newline ∷ marker_start ++ y in
    let later = split-marker x y in
    elim (Bool-cases (d == newline)) [
      | inl e ↦ rw (split-cons d s, e) (any-drop (split newline s) later)
      | inr e ↦ rw (split-cons d s, e) (any-put d (split newline s) later)
    ]

header_lines-IsFlush : (cfg : ResolvedConfig) (count : ℕ) → All IsFlush (header_lines cfg count)
unfolding header_lines has_prefix cut_prefix
header_lines-IsFlush cfg count = (refl, (refl, (refl, (refl, (refl, (refl, (refl, (refl, tt))))))))

unalias_lines-IsFlush : All IsFlush unalias_lines
unfolding unalias_lines has_prefix cut_prefix
unalias_lines-IsFlush = (refl, (refl, (refl, (refl, (refl, (refl, tt))))))

hook_lines-IsFlush : All IsFlush hook_lines
unfolding hook_lines has_prefix cut_prefix
hook_lines-IsFlush = (refl, (refl, (refl, (refl, (refl, (refl, (refl, (refl, tt))))))))

description_lines-IsFlush : (d : Bytes) → All IsFlush (description_lines d)
unfolding description_lines has_prefix cut_prefix
description_lines-IsFlush d = elim (Bool-cases (is_empty (sanitize_comment d))) [
  | inl e ↦ rw e tt
  | inr e ↦ rw e (refl, tt)
]

alias_lines-IsFlush : (aliases : List Alias) → All IsFlush (flat_map alias_lines aliases)
unfolding flat_map alias_lines definition_line has_prefix cut_prefix
alias_lines-IsFlush [] = tt
alias_lines-IsFlush (a ∷ aliases) =
    All-append IsFlush (alias_lines a) _
      (
        refl,
        All-append IsFlush (description_lines a.description) _
            (description_lines-IsFlush a.description) (refl, tt),
      )
      (alias_lines-IsFlush aliases)

optional_hook-IsFlush : (sh : Shell) → All IsFlush (if same sh shell_zsh then hook_lines else [])
optional_hook-IsFlush sh = elim (Bool-cases (same sh shell_zsh)) [
  | inl e ↦ rw e hook_lines-IsFlush
  | inr e ↦ rw e tt
]

posix_lines-IsFlush :
    (sh : Shell) (cfg : ResolvedConfig) → All IsFlush (posix_lines sh cfg ++ [] ∷ [])
unfolding posix_lines managed_names_line has_prefix cut_prefix
posix_lines-IsFlush sh cfg =
    let aliases = sort_aliases cfg.aliases in
    All-append IsFlush (posix_lines sh cfg) _
      (All-append IsFlush (header_lines cfg (length aliases)) _
        (header_lines-IsFlush cfg (length aliases))
        (All-append IsFlush unalias_lines _ unalias_lines-IsFlush (
          refl,
          (
            refl,
            All-append IsFlush (flat_map alias_lines aliases) _ (alias_lines-IsFlush aliases)
                (optional_hook-IsFlush sh),
          ),
        )))
      (refl, tt)

abbrev marker_front : Bytes
marker_front = codes "if [ -z \"${ALIASDECK_MANAGED_ALIAS_NAMES+x}\" ]; then"

abbrev marker_back : Bytes
marker_back = codes "LIASDECK_MANAGED_ALIAS_NAMES="

regroup : (b f m k r : Bytes) → (b ++ (f ++ (m ++ k))) ++ r ≡ ((b ++ f) ++ m) ++ (k ++ r)
regroup b f m k r = simp append_assoc

-- No rendered text for bash or zsh has the marker, where the revision is one line: so the reader of the marker
-- takes no names from it.
pub current-render :
    (lower : ℕ → ℕ) (cfg : ResolvedConfig) (text : Bytes) (sh : Shell)
    → render lower cfg ≡ ok text
    → is_posix cfg.device.shell ≡ true
    → IsOneLine cfg.revision
    → parse_current_legacy_migration text sh ≡ none
unfolding parse_current_legacy_migration
current-render lower cfg text sh h p r = elim (Option-cases (cut legacy_migration_prefix text)) [
  | inl e ↦ ground (arith, e)
  | inr ((before, rest), e) ↦
      let found : text
          ≡ (before ++ marker_front) ++ newline ∷ marker_start ++ (marker_back ++ rest) =
        cut_sound legacy_migration_prefix text {before = before} {rest = rest} e
        ∙ regroup before marker_front (newline ∷ marker_start) marker_back rest in
      let lines = split-render lower cfg text h p r in
      let clean =
        any-All (posix_lines cfg.device.shell cfg ++ [] ∷ [])
          (posix_lines-IsFlush cfg.device.shell cfg) in
      let there =
        any-drop
          (split newline
            ((before ++ marker_front) ++ newline ∷ marker_start ++ (marker_back ++ rest)))
          (split-marker (before ++ marker_front) (marker_back ++ rest)) in
      let dirty : any (λ l. has_prefix l marker_start) (split newline text) ≡ true =
        ap (λ u. any (λ l. has_prefix l marker_start) (split newline u)) found ∙ there in
      let flush : any (λ l. has_prefix l marker_start) (split newline text) ≡ false =
        ap (λ u. any (λ l. has_prefix l marker_start) u) lines ∙ clean in
      cc (dirty, flush)
]
