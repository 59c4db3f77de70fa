-- ===== src/Apply/Content.antt =====
-- internal/apply/bootstrap.go: the bytes of a startup file with the block, and without it.
use aliasdeck.Prelude.{
  ℕ, zero, suc, ◌+◌, ◌-◌, Bool, true, false, ◌&&◌, ◌||◌, not, [], ◌∷◌, ◌++◌, Option, none, some,
  length, take, drop, is_empty, ltb, leb, ◌==◌, if◌then◌else◌, ◌>>=◌,
}
use mathlib.Core.List.{reverse}
use aliasdeck.Text.{Bytes, codes, newline, contains, index}

unfoldable pub begin_marker : Bytes
begin_marker = codes "# >>> aliasdeck >>>"

unfoldable pub end_marker : Bytes
end_marker = codes "# <<< aliasdeck <<<"

-- `detectEOL`
unfoldable pub detect_eol : Bytes → Bytes
detect_eol existing = if contains existing (codes "\r\n") then codes "\r\n" else codes "\n"

-- Whether the last byte is another than a newline.
unfoldable pub ends_open : Bytes → Bool
ends_open existing = elim (reverse existing) [ [] ↦ false | c ∷ _ ↦ not (c == newline) ]

-- The blank line in front of the block.
unfoldable pub padding : Bytes → Bytes → Bytes
padding existing eol =
    (if ends_open existing then eol else []) ++ (if is_empty existing then [] else eol)

-- `buildBlock`
unfoldable pub build_block : Bytes → Bytes → Bytes → Bytes
build_block existing line eol =
    padding existing eol ++ (begin_marker ++ (eol ++ (line ++ (eol ++ (end_marker ++ eol)))))

-- `AddBootstrap` between reading and writing: the block, and the new content.
unfoldable pub add_content : Bytes → Bytes → Option (Bytes × Bytes)
add_content existing line =
    let block = build_block existing line (detect_eol existing) in
    if contains existing begin_marker then none else some (block, existing ++ block)

-- The byte at a position.
unfoldable pub byte_at : Bytes → ℕ → Option ℕ
byte_at [] i = none
byte_at (c ∷ s) zero = some c
byte_at (c ∷ s) (suc i) = byte_at s i

unfoldable pub is_byte_at : Bytes → ℕ → ℕ → Bool
is_byte_at s i c = elim (byte_at s i) [ none ↦ false | some d ↦ d == c ]

-- Whether a marker that begins at `idx` is a whole line.
unfoldable pub whole_line : Bytes → ℕ → ℕ → Bool
whole_line content idx size =
    let stop = idx + size in
    let at_line_start = idx == 0 || is_byte_at content (idx - 1) newline in
    let at_line_end =
      stop == length content
      || is_byte_at content stop newline
      || (is_byte_at content stop 13 && is_byte_at content (stop + 1) newline) in
    at_line_start && at_line_end

-- `indexOfLine`: each round finds a marker at `offset` or behind it; the fuel bounds the rounds.
unfoldable pub index_of_line_from : ℕ → ℕ → Bytes → Bytes → Option ℕ
index_of_line_from zero offset content marker = none
index_of_line_from (suc fuel) offset content marker = elim (index (drop offset content) marker) [
  | none ↦ none
  | some i ↦
      let idx = offset + i in
      let later = index_of_line_from fuel (idx + 1) content marker in
      if whole_line content idx (length marker) then some idx else later
]

unfoldable pub index_of_line : Bytes → Bytes → Option ℕ
index_of_line content marker = index_of_line_from (suc (length content)) 0 content marker

-- `stripTrailingEOL`
unfoldable pub strip_trailing_eol : Bytes → ℕ → ℕ × Bool
strip_trailing_eol content pos =
    if leb 2 pos && is_byte_at content (pos - 2) 13 && is_byte_at content (pos - 1) newline
    then (pos - 2, true)
    else if leb 1 pos && is_byte_at content (pos - 1) newline
    then (pos - 1, true)
    else (pos, false)

-- Where the removal begins: at the blank line in front of the marker, if there is one.
unfoldable pub removal_start : Bytes → ℕ → ℕ
removal_start content begin_idx =
    let (p, found) = strip_trailing_eol content begin_idx in
    let (_, blank) = strip_trailing_eol content p in
    if found && (blank || p == 0) then p else begin_idx

-- Where it ends: behind the line ending of the end marker.
unfoldable pub removal_end : Bytes → ℕ → ℕ
removal_end content end_idx =
    let line_end = end_idx + length end_marker in
    if ltb (line_end + 1) (length content)
      && is_byte_at content line_end 13
      && is_byte_at content (line_end + 1) newline
    then line_end + 2
    else if ltb line_end (length content) && is_byte_at content line_end newline
    then line_end + 1
    else line_end

-- `removeMarkerScan`: `none` where it leaves the content. An end marker that is missing has the
-- position -1, which is before every begin marker.
unfoldable pub remove_marker_scan : Bytes → Option Bytes
remove_marker_scan content = do
  begin_idx ← index_of_line content begin_marker
  end_idx ← index_of_line content end_marker
  (if ltb end_idx begin_idx
      then none
      else some (
          take (removal_start content begin_idx) content
          ++ drop (removal_end content end_idx) content))

-- `RemoveBootstrap` between reading and writing: the new content, if it is to be written, and whether
-- the removal is exact.
unfoldable pub remove_content : Bytes → Bytes → Option Bytes × Bool
remove_content existing block =
    let scanned : Option Bytes × Bool = elim (remove_marker_scan existing) [
      | none ↦ (none, true)
      | some updated ↦ (some updated, false)
    ] in
    if is_empty block then scanned else elim (index existing block) [
      | none ↦ scanned
      | some idx ↦ (some (take idx existing ++ drop (idx + length block) existing), true)
    ]
