-- ===== src/Source/GitPath.antt =====
-- The path of the aliases file stays below the checkout, by its spelling.
use aliasdeck.Prelude.{
  ◌≡◌, sym, ap, ◌∙◌, ◌⊎◌, inl, inr, true, false, ◌||◌, ◌++◌, some, is_empty, Bool-cases,
  Option-cases, arith,
}
use aliasdeck.Text.{Bytes, codes, same, has_prefix}
use aliasdeck.Text.Equality.{same_iff}
use aliasdeck.Text.Search.{has_prefix-append}
use aliasdeck.Source.Git.{Git, git_aliases_path}

-- A relative path that leaves the directory it starts in, by its spelling.
abbrev pub Ascends : Bytes → Bytes → Type 0
Ascends separator rel =
    (rel ≡ codes "..") ⊎ ((rest : Bytes) × (rel ≡ (codes ".." ++ separator) ++ rest))

-- A path that is spelled as one of the cache directory: the default, or one whose path relative to that
-- directory does not ascend.
pub data IsBelow {W : Type 0} (git : Git W) (cache_dir rel_path path : Bytes) : Type 0 where
  default :
      is_empty rel_path ≡ true
      → path ≡ git.join cache_dir (codes "aliases.yaml")
      → IsBelow git cache_dir rel_path path
  spelled :
      (rel : Bytes)
      → path ≡ git.join cache_dir rel_path
      → git.rel cache_dir path ≡ some rel
      → ¬ (Ascends git.separator rel)
      → IsBelow git cache_dir rel_path path

not_ascending :
    (separator rel : Bytes)
    → same rel (codes "..") || has_prefix rel (codes ".." ++ separator) ≡ false
    → ¬ (Ascends separator rel)
not_ascending separator rel h (inl e) = ground (arith, h, (same_iff rel (codes "..")).1 e)
not_ascending separator rel h (inr (rest, e)) =
    let prefixed = has_prefix-append (codes ".." ++ separator) rest in
    let there : has_prefix rel (codes ".." ++ separator) ≡ true =
      ap (λ u. has_prefix u (codes ".." ++ separator)) e ∙ prefixed in
    ground (arith, h, there)

pub git_aliases_path-IsBelow :
    {W : Type 0} (git : Git W) (cache_dir rel_path path : Bytes)
    → git_aliases_path git cache_dir rel_path ≡ some path
    → IsBelow git cache_dir rel_path path
unfolding git_aliases_path
git_aliases_path-IsBelow git cache_dir rel_path path h = elim (Bool-cases (is_empty rel_path)) [
  | inl e ↦ default e (ground (arith, e))
  | inr e ↦
      let joined = git.join cache_dir rel_path in
      elim (Option-cases (git.rel cache_dir joined)) [
        | inl f ↦ ground (arith, e, f)
        | inr (rel, f) ↦
            elim (Bool-cases
              (same rel (codes "..") || has_prefix rel (codes ".." ++ git.separator))) [
                | inl g ↦ ground (arith, e, f, g)
                | inr g ↦
                    let it : joined ≡ path = ground (arith, e, f, g) in
                    spelled rel (sym it) (ap (λ u. git.rel cache_dir u) (sym it) ∙ f)
                      (not_ascending git.separator rel g)
              ]
      ]
]
