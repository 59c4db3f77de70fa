-- ===== src/Importers/RoundTrip.antt =====
-- The importer reads a generated file back.
use aliasdeck.Prelude.{
  ℕ, ◌+◌, ◌≡◌, inl, inr, true, false, List, [], ◌∷◌, ◌++◌, append-nil, length, is_empty, All,
  Bool-cases, if◌then◌else◌,
}
use aliasdeck.Prelude.{ok}
use mathlib.Core.Path.{subst}
use mathlib.Core.List.{map, flat_map}
use aliasdeck.Text.{Bytes, codes, newline, has_prefix, cut_prefix, split, same}
use aliasdeck.Domain.Shell.{platform_valid, shell_valid, Shell, shell_zsh, is_posix}
use aliasdeck.Domain.Alias.{Alias}
use aliasdeck.Domain.Sort.{All-sort_aliases}
use aliasdeck.Domain.Resolved.{ResolvedConfig, sort_aliases}
use aliasdeck.Renderers.Quote.{sanitize_comment}
use aliasdeck.Renderers.Render.{render}
use aliasdeck.Renderers.PosixLines.{
  comment, header_lines, unalias_lines, managed_names_line, description_lines, definition_line,
  alias_lines, hook_lines, posix_lines,
}
use aliasdeck.Renderers.OneLine.{IsOneLine-of_platform, IsOneLine-of_shell, IsOneLine}
use aliasdeck.Renderers.PosixOneLine.{
  header_lines-IsOneLine, managed_names_line-IsOneLine, description_lines-IsOneLine, IsSafeAlias,
  All-safe,
}
use aliasdeck.Renderers.Safety.{render-posix, split-render}
use aliasdeck.Importers.Statement.{Parsed}
use aliasdeck.Importers.Posix.{begin_marker, parse_lines, parse_posix}
use aliasdeck.Importers.ReadLine.{definitions}
use aliasdeck.Importers.Inert.{
  parse_lines_step, Reads, Reads-nil, Reads-append, Reads-inert, Reads-definition, IsInert,
  blank_IsInert, unalias_IsInert, hook_IsInert, unset_IsInert, header_IsInert,
  managed_names_IsInert, comment-IsInert,
}
use aliasdeck.Text.{same}

Reads-lines : (ls : List Bytes) → All IsInert ls → Reads ls []
Reads-lines [] h = Reads-nil
Reads-lines (l ∷ ls) h = Reads-append (l ∷ []) ls [] [] (Reads-inert l h.0) (Reads-lines ls h.1)

-- The sanitized description does not begin like the marker of the shell's rc file.
abbrev pub IsPlainDescription : Bytes → Type 0
IsPlainDescription d = has_prefix (sanitize_comment d) (codes ">>> aliasdeck >>>") ≡ false

description_plain :
    (s : Bytes)
    → has_prefix s (codes ">>> aliasdeck >>>") ≡ false
    → has_prefix (comment s) begin_marker ≡ false
unfolding has_prefix cut_prefix begin_marker
description_plain s h = h

description_IsInert :
    (d : Bytes)
    → IsPlainDescription d
    → All IsOneLine (description_lines d)
    → All IsInert (description_lines d)
unfolding description_lines
description_IsInert d plain one = elim (Bool-cases (is_empty (sanitize_comment d))) [
  | inl e ↦ rw e tt
  | inr e ↦ rw e (
    comment-IsInert (sanitize_comment d) (rw e at one).0
        (description_plain (sanitize_comment d) plain),
    tt,
  )
]

-- What an alias is read back as.
abbrev pub entry : Alias → Bytes × Bytes × Bytes
entry a = (a.name, a.command, [])

Reads-alias :
    (a : Alias)
    → IsSafeAlias a
    → IsPlainDescription a.description
    → All IsOneLine (description_lines a.description)
    → Reads (alias_lines a) (entry a ∷ [])
unfolding alias_lines
Reads-alias a safe plain one =
    Reads-append ([] ∷ []) (description_lines a.description ++ definition_line a ∷ []) []
      (entry a ∷ []) (Reads-inert [] blank_IsInert)
      (Reads-append (description_lines a.description) (definition_line a ∷ []) [] (entry a ∷ [])
        (Reads-lines (description_lines a.description)
          (description_IsInert a.description plain one))
        (Reads-definition a safe))

Reads-aliases :
    (aliases : List Alias)
    → All IsSafeAlias aliases
    → All (λ a. IsPlainDescription a.description) aliases
    → Reads (flat_map alias_lines aliases) (map entry aliases)
unfolding flat_map
Reads-aliases [] safe plain = Reads-nil
Reads-aliases (a ∷ aliases) safe plain =
    Reads-append (alias_lines a) (flat_map alias_lines aliases) (entry a ∷ []) (map entry aliases)
      (Reads-alias a safe.0 plain.0 (description_lines-IsOneLine a.description))
      (Reads-aliases aliases safe.1 plain.1)

optional_hook_IsInert : (sh : Shell) → All IsInert (if same sh shell_zsh then hook_lines else [])
optional_hook_IsInert sh = elim (Bool-cases (same sh shell_zsh)) [
  | inl e ↦ rw e hook_IsInert
  | inr e ↦ rw e tt
]

module _ (cfg : ResolvedConfig) (safe : All IsSafeAlias (sort_aliases cfg.aliases))
    (plain : All (λ a. IsPlainDescription a.description) (sort_aliases cfg.aliases))
    (platform_ok : platform_valid cfg.device.platform ≡ true)
    (shell_ok : shell_valid cfg.device.shell ≡ true) (one_line : IsOneLine cfg.revision) where
  Reads-tail :
      (sh : Shell)
      → Reads
          (flat_map alias_lines (sort_aliases cfg.aliases)
            ++ (if same sh shell_zsh then hook_lines else []))
          (map entry (sort_aliases cfg.aliases))
  Reads-tail sh = subst (Reads _) (append-nil (map entry (sort_aliases cfg.aliases))) (
      Reads-append (flat_map alias_lines (sort_aliases cfg.aliases)) _
        (map entry (sort_aliases cfg.aliases)) []
        (Reads-aliases (sort_aliases cfg.aliases) safe plain)
        (Reads-lines (if same sh shell_zsh then hook_lines else []) (optional_hook_IsInert sh)))

  Reads-posix_lines :
      (sh : Shell) → Reads (posix_lines sh cfg) (map entry (sort_aliases cfg.aliases))
  unfolding posix_lines
  Reads-posix_lines sh =
      let aliases = sort_aliases cfg.aliases in
      let header =
        header_lines-IsOneLine cfg (length aliases) (IsOneLine-of_platform _ platform_ok)
          (IsOneLine-of_shell _ shell_ok) one_line in
      let names = managed_names_line-IsOneLine aliases safe in
      Reads-append (header_lines cfg (length aliases)) _ [] (map entry aliases)
        (Reads-lines (header_lines cfg (length aliases))
          (header_IsInert cfg (length aliases) header))
        (Reads-append unalias_lines _ [] (map entry aliases)
          (Reads-lines unalias_lines unalias_IsInert)
          (Reads-append (managed_names_line aliases ∷ []) _ [] (map entry aliases)
            (Reads-inert (managed_names_line aliases) (managed_names_IsInert aliases names))
            (Reads-append (codes "unset aliasdeck_managed_name" ∷ []) _ [] (map entry aliases)
              (Reads-inert (codes "unset aliasdeck_managed_name") unset_IsInert) (Reads-tail sh))))

-- The empty line behind the last newline.
parse_lines-last : (i : ℕ) (res : Parsed) → parse_lines i ([] ∷ []) false res ≡ res
unfolding parse_lines
parse_lines-last i res = parse_lines_step i [] [] res res (blank_IsInert (i + 1) res)

parse_posix-Reads :
    (text : Bytes) (ls : List Bytes) (ms : List (Bytes × Bytes × Bytes))
    → split newline text ≡ ls ++ [] ∷ []
    → Reads ls ms
    → (definitions (parse_posix text) ≡ ms) × ((parse_posix text).skipped ≡ [])
unfolding parse_posix
parse_posix-Reads text ls ms e h =
    let (j, res, run, found, skipped) = h.read 0 ([] ∷ []) (record { found = []; skipped = [] }) in
    rw (e, run, parse_lines-last j res) (found, skipped)

-- Reading back what `Render` wrote for bash or zsh gives one definition for each alias, sorted by
-- name, with its exact command and no note, and skips nothing. The revision must be one line, and no
-- description may begin like the marker of an rc file block.
pub parse_posix-render :
    (lower : ℕ → ℕ) (cfg : ResolvedConfig) (text : Bytes)
    → render lower cfg ≡ ok text
    → is_posix cfg.device.shell ≡ true
    → IsOneLine cfg.revision
    → All (λ a. IsPlainDescription a.description) cfg.aliases
    → (definitions (parse_posix text)
        ≡ map (λ a. (a.name, a.command, [])) (sort_aliases cfg.aliases))
      × ((parse_posix text).skipped ≡ [])
parse_posix-render lower cfg text h p one plain =
    let (clean, e) = render-posix lower cfg {text = text} h p in
    let safe = All-safe cfg.device.shell cfg.aliases clean.aliases_ok in
    parse_posix-Reads text (posix_lines cfg.device.shell cfg) (map entry (sort_aliases cfg.aliases))
      (split-render lower cfg text h p one)
      (Reads-posix_lines cfg (All-sort_aliases IsSafeAlias cfg.aliases safe)
        (All-sort_aliases (λ a. IsPlainDescription a.description) cfg.aliases plain)
        clean.platform_ok clean.shell_ok one cfg.device.shell)
