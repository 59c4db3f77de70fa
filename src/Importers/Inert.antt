-- ===== src/Importers/Inert.antt =====
-- Lines of a generated file that the importer passes over.
use aliasdeck.Prelude.{
  ℕ, ◌+◌, ◌≡◌, ◌≢◌, refl, sym, ap, ◌∙◌, inl, inr, false, List, [], ◌∷◌, ◌++◌, append_assoc,
  append-nil, none, is_empty, All, Bool-cases, arith,
}
use mathlib.Core.List.{flat_map, map-append}
use aliasdeck.Text.{Bytes, codes, has_prefix, cut_prefix, trim_suffix}
use aliasdeck.Utf8.{trim_space, trim_runes, decode_from, decode_rune, is_space, space_rune}
use aliasdeck.Utf8.Trim.{IsInk}
use aliasdeck.Domain.Alias.{Alias}
use aliasdeck.Domain.Resolved.{ResolvedConfig}
use aliasdeck.Renderers.Quote.{sanitize_comment}
use aliasdeck.Renderers.Header.{
  banner_text, changes_text, edit_text, device_text, revision_text, count_text,
}
use aliasdeck.Renderers.PosixLines.{
  comment, header_lines, unalias_lines, managed_names_line, definition_line, hook_lines,
}
use aliasdeck.Renderers.OneLine.{IsOneLine, Lacks-of_IsOneLine}
use aliasdeck.Renderers.PosixOneLine.{IsSafeAlias}
use aliasdeck.Importers.Statement.{after_keyword, Parsed, parse_statement, after_alias_keyword}
use aliasdeck.Importers.Posix.{begin_marker, parse_line, parse_lines}
use aliasdeck.Importers.ReadLine.{definitions, with_found, parse_line-inert, parse_line-definition}

-- Wherever these lines stand outside a block, they add these definitions and skip nothing.
pub record Reads (ls : List Bytes) (ms : List (Bytes × Bytes × Bytes)) : Type 0 where
  pub read :
      (i : ℕ) (rest : List Bytes) (res : Parsed)
      → (j : ℕ) × (res' : Parsed) × (parse_lines i (ls ++ rest) false res
          ≡ parse_lines j rest false res')
        × (definitions res' ≡ definitions res ++ ms)
        × (res'.skipped ≡ res.skipped)

pub Reads-nil : Reads [] []
Reads-nil = record { read = λ i rest res. (i, res, refl, sym (append-nil (definitions res)), refl) }

pub Reads-append :
    (ls ls' : List Bytes) (ms ms' : List (Bytes × Bytes × Bytes))
    → Reads ls ms
    → Reads ls' ms'
    → Reads (ls ++ ls') (ms ++ ms')
Reads-append ls ls' ms ms' h k = record {
  read = λ i rest res.
      let (j, res1, run1, found1, skipped1) = h.read i (ls' ++ rest) res in
      let (j2, res2, run2, found2, skipped2) = k.read j rest res1 in
      (
        j2,
        res2,
        ap (λ u. parse_lines i u false res) (append_assoc ls ls' rest) ∙ run1 ∙ run2,
        found2 ∙ ap (λ u. u ++ ms') found1 ∙ append_assoc (definitions res) ms ms',
        skipped2 ∙ skipped1,
      );
}

pub parse_lines_step :
    (i : ℕ) (l : Bytes) (rest : List Bytes) (res res' : Parsed)
    → parse_line (i + 1) l false res ≡ (false, res')
    → parse_lines i (l ∷ rest) false res ≡ parse_lines (i + 1) rest false res'
unfolding parse_lines
parse_lines_step i l rest res res' h = rw h

-- A line that changes neither flag nor result.
abbrev pub IsInert : Bytes → Type 0
IsInert l = (n : ℕ) (res : Parsed) → parse_line n l false res ≡ (false, res)

pub Reads-inert : (l : Bytes) → IsInert l → Reads (l ∷ []) []
Reads-inert l h = record {
  read = λ i rest res. (
    i + 1,
    res,
    parse_lines_step i l rest res res (h (i + 1) res),
    sym (append-nil (definitions res)),
    refl,
  );
}

pub Reads-definition :
    (a : Alias) → IsSafeAlias a → Reads (definition_line a ∷ []) ((a.name, a.command, []) ∷ [])
Reads-definition a h = record {
  read = λ i rest res. (
    i + 1,
    with_found (i + 1) a.name a.command res,
    parse_lines_step i (definition_line a) rest res _ (parse_line-definition (i + 1) a res h),
    map-append _ _ _,
    refl,
  );
}

parse_statement-none :
    (n : ℕ) (t : Bytes) (res : Parsed)
    → after_alias_keyword t ≡ none
    → parse_statement n t res ≡ res
unfolding parse_statement
parse_statement-none n t res h = ground arith

-- A line whose trimmed text is neither a marker nor a statement.
IsInert-of_parts :
    (l t : Bytes)
    → trim_space (trim_suffix l (codes "\r")) ≡ t
    → has_prefix t begin_marker ≡ false
    → after_alias_keyword t ≡ none
    → IsInert l
IsInert-of_parts l t e m k n res =
    unfold parse_line in rw (e, m, parse_statement-none n t res k) (ground arith)

pub blank_IsInert : IsInert []
unfolding flat_map trim_space trim_runes decode_from after_alias_keyword after_keyword has_prefix
    cut_prefix begin_marker trim_suffix
blank_IsInert = IsInert-of_parts [] [] refl refl refl

pub unalias_IsInert : All IsInert unalias_lines
unfolding unalias_lines flat_map trim_space trim_runes decode_from decode_rune is_space space_rune
    after_alias_keyword after_keyword has_prefix cut_prefix begin_marker trim_suffix
unalias_IsInert = (
  blank_IsInert,
  (
    IsInert-of_parts _ (codes "if [ -n \"${ALIASDECK_MANAGED_ALIAS_NAMES-}\" ]; then") refl refl
        refl,
    (
      IsInert-of_parts _ (codes "for aliasdeck_managed_name in $ALIASDECK_MANAGED_ALIAS_NAMES; do")
          refl refl refl,
      (
        IsInert-of_parts _ (codes "unalias -- \"$aliasdeck_managed_name\" 2>/dev/null || true") refl
            refl refl,
        (
          IsInert-of_parts _ (codes "done") refl refl refl,
          (IsInert-of_parts _ (codes "fi") refl refl refl, tt),
        ),
      ),
    ),
  ),
)

pub hook_IsInert : All IsInert hook_lines
unfolding hook_lines flat_map trim_space trim_runes decode_from decode_rune is_space space_rune
    after_alias_keyword after_keyword has_prefix cut_prefix begin_marker trim_suffix
hook_IsInert = (
  blank_IsInert,
  (
    IsInert-of_parts _ (codes "typeset -g ALIASDECK_GENERATED_ALIAS_FILE=${${(%):-%N}:A}") refl refl
        refl,
    (
      IsInert-of_parts _ (codes "_aliasdeck_reload_generated_aliases() {") refl refl refl,
      (
        IsInert-of_parts _
            (codes
              "[ -r \"$ALIASDECK_GENERATED_ALIAS_FILE\" ] && . \"$ALIASDECK_GENERATED_ALIAS_FILE\"")
            refl refl refl,
        (
          IsInert-of_parts _ (codes "}") refl refl refl,
          (
            IsInert-of_parts _ (codes "autoload -Uz add-zsh-hook") refl refl refl,
            (
              IsInert-of_parts _
                  (codes
                    "add-zsh-hook -d precmd _aliasdeck_reload_generated_aliases 2>/dev/null || true")
                  refl refl refl,
              (
                IsInert-of_parts _ (codes "add-zsh-hook precmd _aliasdeck_reload_generated_aliases")
                    refl refl refl,
                tt,
              ),
            ),
          ),
        ),
      ),
    ),
  ),
)

pub unset_IsInert : IsInert (codes "unset aliasdeck_managed_name")
unfolding flat_map trim_space trim_runes decode_from decode_rune is_space space_rune
    after_alias_keyword after_keyword has_prefix cut_prefix begin_marker trim_suffix
unset_IsInert = IsInert-of_parts _ (codes "unset aliasdeck_managed_name") refl refl refl

rule_IsInert : IsInert (codes "#")
unfolding flat_map trim_space trim_runes decode_from decode_rune is_space space_rune
    after_alias_keyword after_keyword has_prefix cut_prefix begin_marker trim_suffix
rule_IsInert = IsInert-of_parts _ (codes "#") refl refl refl

-- A line that begins with ink, with another byte than an `a`.
IsInert-of_ink :
    (c : ℕ) (s : Bytes)
    → IsInk c
    → c ≢ b'a'
    → IsOneLine (c ∷ s)
    → has_prefix (c ∷ s) begin_marker ≡ false
    → IsInert (c ∷ s)
IsInert-of_ink c s ink other one plain n res =
    parse_line-inert n c s res ink other (Lacks-of_IsOneLine (c ∷ s) one).1 plain

pub comment-IsInert :
    (s : Bytes)
    → IsOneLine (comment s)
    → has_prefix (comment s) begin_marker ≡ false
    → IsInert (comment s)
unfolding is_space
comment-IsInert s one plain =
    IsInert-of_ink b'#' (32 ∷ s) (omega arith, refl) (omega arith) one plain

header_plain :
    (cfg : ResolvedConfig) (count : ℕ)
    → (has_prefix (comment (revision_text cfg)) begin_marker ≡ false)
      × (has_prefix (comment (count_text count)) begin_marker ≡ false)
unfolding revision_text count_text has_prefix cut_prefix begin_marker
header_plain cfg count = (refl, refl)

device_plain : (cfg : ResolvedConfig) → has_prefix (comment (device_text cfg)) begin_marker ≡ false
unfolding device_text has_prefix cut_prefix begin_marker
device_plain cfg = elim (Bool-cases (is_empty (sanitize_comment cfg.device.name))) [
  | inl e ↦ rw e
  | inr e ↦ rw e
]

fixed_plain :
    (has_prefix (comment banner_text) begin_marker ≡ false)
    × (has_prefix (comment changes_text) begin_marker ≡ false)
    × (has_prefix (comment edit_text) begin_marker ≡ false)
unfolding banner_text changes_text edit_text has_prefix cut_prefix begin_marker
fixed_plain = (refl, refl, refl)

pub header_IsInert :
    (cfg : ResolvedConfig) (count : ℕ)
    → All IsOneLine (header_lines cfg count)
    → All IsInert (header_lines cfg count)
unfolding header_lines
header_IsInert cfg count (b, (r1, (d, (r, (n, (r2, (c, (e, u)))))))) =
    let (pr, pn) = header_plain cfg count in
    let (pb, pc, pe) = fixed_plain in
    (
      comment-IsInert banner_text b pb,
      (
        rule_IsInert,
        (
          comment-IsInert (device_text cfg) d (device_plain cfg),
          (
            comment-IsInert (revision_text cfg) r pr,
            (
              comment-IsInert (count_text count) n pn,
              (
                rule_IsInert,
                (comment-IsInert changes_text c pc, (comment-IsInert edit_text e pe, tt)),
              ),
            ),
          ),
        ),
      ),
    )

pub managed_names_IsInert :
    (aliases : List Alias)
    → IsOneLine (managed_names_line aliases)
    → IsInert (managed_names_line aliases)
unfolding managed_names_line is_space has_prefix cut_prefix begin_marker
managed_names_IsInert aliases one = IsInert-of_ink b'A' _ (omega arith, refl) (omega arith) one refl
