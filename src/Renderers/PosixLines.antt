-- ===== src/Renderers/PosixLines.antt =====
-- The lines of a generated file for bash or zsh.
use aliasdeck.Prelude.{
  ℕ, ◌≡◌, ◌≢◌, refl, ap, inl, inr, not, List, [], ◌∷◌, ◌++◌, append_assoc, length, is_empty,
  Bool-cases, if◌then◌else◌, arith,
}
use mathlib.Core.List.{map, flat_map}
use aliasdeck.Text.{Bytes, codes, newline, same, join}
use aliasdeck.Text.Lines.{unlines, unlines-append}
use aliasdeck.Domain.Shell.{Shell, shell_zsh}
use aliasdeck.Domain.Alias.{Alias}
use aliasdeck.Domain.Resolved.{ResolvedConfig, sort_aliases}
use aliasdeck.Renderers.Quote.{quote_posix, sanitize_comment}
use aliasdeck.Renderers.Header.{
  header, header_line, banner_text, device_text, revision_text, count_text, changes_text, edit_text,
}
use aliasdeck.Renderers.Posix.{
  unalias_block, managed_names, unset_line, description_line, alias_line, alias_block, zsh_hook,
  posix_text,
}

-- A comment line of the header.
abbrev pub comment : Bytes → Bytes
comment text = codes "# " ++ text

unfoldable pub header_lines : ResolvedConfig → ℕ → List Bytes
header_lines cfg count =
    comment banner_text
    ∷ codes "#"
    ∷ comment (device_text cfg)
    ∷ comment (revision_text cfg)
    ∷ comment (count_text count)
    ∷ codes "#"
    ∷ comment changes_text
    ∷ comment edit_text
    ∷ []

unfoldable pub unalias_lines : List Bytes
unalias_lines =
    []
    ∷ codes "if [ -n \"${ALIASDECK_MANAGED_ALIAS_NAMES-}\" ]; then"
    ∷ codes "  for aliasdeck_managed_name in $ALIASDECK_MANAGED_ALIAS_NAMES; do"
    ∷ codes "    unalias -- \"$aliasdeck_managed_name\" 2>/dev/null || true"
    ∷ codes "  done"
    ∷ codes "fi"
    ∷ []

unfoldable pub managed_names_line : List Alias → Bytes
managed_names_line aliases =
    codes "ALIASDECK_MANAGED_ALIAS_NAMES="
    ++ quote_posix (join (codes " ") (map (λ a. a.name) aliases))

unfoldable pub description_lines : Bytes → List Bytes
description_lines description =
    let desc = sanitize_comment description in if not (is_empty desc) then comment desc ∷ [] else []

unfoldable pub definition_line : Alias → Bytes
definition_line a = codes "alias " ++ (a.name ++ (codes "=" ++ quote_posix a.command))

unfoldable pub alias_lines : Alias → List Bytes
alias_lines a = [] ∷ description_lines a.description ++ definition_line a ∷ []

unfoldable pub hook_lines : List Bytes
hook_lines =
    []
    ∷ codes "typeset -g ALIASDECK_GENERATED_ALIAS_FILE=${${(%):-%N}:A}"
    ∷ codes "_aliasdeck_reload_generated_aliases() {"
    ∷ codes "  [ -r \"$ALIASDECK_GENERATED_ALIAS_FILE\" ] && . \"$ALIASDECK_GENERATED_ALIAS_FILE\""
    ∷ codes "}"
    ∷ codes "autoload -Uz add-zsh-hook"
    ∷ codes "add-zsh-hook -d precmd _aliasdeck_reload_generated_aliases 2>/dev/null || true"
    ∷ codes "add-zsh-hook precmd _aliasdeck_reload_generated_aliases"
    ∷ []

unfoldable pub posix_lines : Shell → ResolvedConfig → List Bytes
posix_lines sh cfg =
    let aliases = sort_aliases cfg.aliases in
    header_lines cfg (length aliases)
    ++ (unalias_lines
        ++ (managed_names_line aliases
            ∷ codes "unset aliasdeck_managed_name"
            ∷ (flat_map alias_lines aliases ++ (if same sh shell_zsh then hook_lines else []))))

-- Text after text is lines after lines.
spell-append :
    (t u : Bytes) (ls ms : List Bytes)
    → t ≡ unlines ls
    → u ≡ unlines ms
    → t ++ u ≡ unlines (ls ++ ms)
spell-append t u ls ms h k = rw (unlines-append ls ms, h, k)

spell-line : (l : Bytes) → l ++ newline ∷ [] ≡ unlines (l ∷ [])
spell-line l = refl

spell-header_line :
    (text : Bytes) → text ≢ [] → header_line (codes "#") text ≡ unlines (comment text ∷ [])
unfolding header_line
spell-header_line [] h = absurd (h refl)
spell-header_line (c ∷ text) h = refl

fixed_texts : (banner_text ≢ []) × (changes_text ≢ []) × (edit_text ≢ [])
unfolding banner_text changes_text edit_text
fixed_texts = (λ e. cc, λ e. cc, λ e. cc)

device_text-ne-nil : (cfg : ResolvedConfig) → device_text cfg ≢ []
unfolding device_text
device_text-ne-nil cfg e = ground arith

revision_text-ne-nil : (cfg : ResolvedConfig) → revision_text cfg ≢ []
unfolding revision_text
revision_text-ne-nil cfg e = cc

count_text-ne-nil : (count : ℕ) → count_text count ≢ []
unfolding count_text
count_text-ne-nil count e = cc

spell-bare : header_line (codes "#") [] ≡ unlines (codes "#" ∷ [])
unfolding header_line
spell-bare = refl

-- One more line of the header.
spell-next :
    (text u : Bytes) (ls : List Bytes)
    → text ≢ []
    → u ≡ unlines ls
    → header_line (codes "#") text ++ u ≡ unlines (comment text ∷ ls)
spell-next text u ls h k = spell-append _ u (comment text ∷ []) ls (spell-header_line text h) k

spell-header :
    (cfg : ResolvedConfig) (count : ℕ)
    → header (codes "#") cfg count ≡ unlines (header_lines cfg count)
unfolding header header_lines
spell-header cfg count =
    let (b, c, e) = fixed_texts in
    let l6 = comment edit_text ∷ [] in
    let l5 = comment changes_text ∷ l6 in
    let l4 = codes "#" ∷ l5 in
    let l3 = comment (count_text count) ∷ l4 in
    let l2 = comment (revision_text cfg) ∷ l3 in
    let l1 = comment (device_text cfg) ∷ l2 in
    spell-next banner_text _ (codes "#" ∷ l1) b (
      spell-append _ _ (codes "#" ∷ []) l1 spell-bare (
        spell-next (device_text cfg) _ l2 (device_text-ne-nil cfg) (
          spell-next (revision_text cfg) _ l3 (revision_text-ne-nil cfg) (
            spell-next (count_text count) _ l4 (count_text-ne-nil count) (
              spell-append _ _ (codes "#" ∷ []) l5 spell-bare
                (spell-next changes_text _ l6 c (spell-header_line edit_text e)))))))

spell-unalias : unalias_block ≡ unlines unalias_lines
unfolding unalias_block unalias_lines
spell-unalias = refl

spell-hook : zsh_hook ≡ unlines hook_lines
unfolding zsh_hook hook_lines
spell-hook = refl

spell-managed :
    (aliases : List Alias) → managed_names aliases ≡ unlines (managed_names_line aliases ∷ [])
unfolding managed_names managed_names_line
spell-managed aliases = simp append_assoc

spell-description : (d : Bytes) → description_line d ≡ unlines (description_lines d)
unfolding description_line description_lines
spell-description d = elim (Bool-cases (is_empty (sanitize_comment d))) [
  | inl e ↦ rw e
  | inr e ↦ rw e
]

spell-definition : (a : Alias) → alias_line a ≡ unlines (definition_line a ∷ [])
unfolding alias_line definition_line
spell-definition a = simp append_assoc

spell-alias : (a : Alias) → alias_block a ≡ unlines (alias_lines a)
unfolding alias_block alias_lines
spell-alias a =
    ap (λ u. newline ∷ u)
      (spell-append (description_line a.description) (alias_line a)
        (description_lines a.description) (definition_line a ∷ []) (spell-description a.description)
        (spell-definition a))

spell-aliases :
    (aliases : List Alias) → flat_map alias_block aliases ≡ unlines (flat_map alias_lines aliases)
unfolding flat_map
spell-aliases [] = refl
spell-aliases (a ∷ aliases) =
    spell-append (alias_block a) _ (alias_lines a) _ (spell-alias a) (spell-aliases aliases)

spell-optional_hook :
    (sh : Shell)
    → (if same sh shell_zsh then zsh_hook else [])
      ≡ unlines (if same sh shell_zsh then hook_lines else [])
spell-optional_hook sh = elim (Bool-cases (same sh shell_zsh)) [
  | inl e ↦ rw e spell-hook
  | inr e ↦ rw e
]

spell-unset : unset_line ≡ unlines (codes "unset aliasdeck_managed_name" ∷ [])
unfolding unset_line
spell-unset = refl

-- The text is its lines, each with its newline.
pub posix_text_lem :
    (sh : Shell) (cfg : ResolvedConfig) → posix_text sh cfg ≡ unlines (posix_lines sh cfg)
unfolding posix_text posix_lines
posix_text_lem sh cfg =
    let aliases = sort_aliases cfg.aliases in
    let hook = if same sh shell_zsh then hook_lines else [] in
    let l4 = flat_map alias_lines aliases ++ hook in
    let l3 = codes "unset aliasdeck_managed_name" ∷ l4 in
    let l2 = managed_names_line aliases ∷ l3 in
    spell-append _ _ (header_lines cfg (length aliases)) (unalias_lines ++ l2)
      (spell-header cfg (length aliases))
      (spell-append unalias_block _ unalias_lines l2 spell-unalias (
        spell-append (managed_names aliases) _ (managed_names_line aliases ∷ []) l3
          (spell-managed aliases)
          (spell-append unset_line _ (codes "unset aliasdeck_managed_name" ∷ []) l4 spell-unset (
            spell-append _ _ (flat_map alias_lines aliases) hook (spell-aliases aliases)
              (spell-optional_hook sh)))))
