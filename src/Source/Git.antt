-- ===== src/Source/Git.antt =====
-- internal/source/git.go: `GitSource`. Running git, the file system and path/filepath are parameters.
use aliasdeck.Prelude.{
  ℕ, Bool, true, false, ◌||◌, not, List, [], ◌∷◌, ◌++◌, Option, none, some, is_empty, if◌then◌else◌,
}
use aliasdeck.Prelude.{Result, ok, err}
use mathlib.Core.List.{map}
use aliasdeck.Text.{Bytes, codes, same, has_prefix, to_lower_byte}
use aliasdeck.Utf8.{trim_space}
use aliasdeck.Domain.Alias.{Device, Time}
use aliasdeck.Domain.Resolved.{ResolvedConfig}
use aliasdeck.Config.Aliases.{AliasesFileDto}
use aliasdeck.Apply.Atomic.{Disk, OsError}
use aliasdeck.Source.File.{FileError, resolve_file}

pub record GitSource : Type 0 where
  pub url : Bytes
  pub ref : Bytes
  pub path : Bytes
  pub cache_dir : Bytes

-- `run` runs git in a directory; `is_dir` and `modified` are calls of `os.Stat`.
pub record Git (W : Type 0) : Type 0 where
  pub run : Bytes → List Bytes → W → Result Bytes Bytes × W
  pub is_dir : Bytes → W → Result OsError Bool
  pub modified : Bytes → W → Option Time
  pub mkdir_all : Bytes → ℕ → W → Result OsError Unit × W
  pub chmod : Bytes → ℕ → W → Result OsError Unit × W
  pub join : Bytes → Bytes → Bytes
  pub rel : Bytes → Bytes → Option Bytes
  pub dir : Bytes → Bytes
  pub separator : Bytes

pub data GitError : Type 0 where
  missing_url : GitError
  flag_url : GitError
  ext_url : GitError
  flag_ref : GitError
  cache_check : OsError → GitError
  cache_dir_failure : OsError → GitError
  git_failure : Bytes → GitError
  path_escapes : GitError
  git_file : FileError → GitError

-- `ResolveInfo`
pub record GitInfo : Type 0 where
  pub resolved_ref : Bytes
  pub commit : Bytes
  pub fetched_at : Time
  pub stale : Bool

-- `validateGitURL`: `none` is the error nil. No letter but E, X and T has e, x or t as its lower case.
unfoldable pub validate_git_url : Bytes → Option GitError
unfolding has_prefix to_lower_byte
validate_git_url url =
    if is_empty url
    then some missing_url
    else if has_prefix url (codes "-")
    then some flag_url
    else if has_prefix (map to_lower_byte url) (codes "ext::")
    then some ext_url
    else none

-- `validateGitRef`
unfoldable pub validate_git_ref : Bytes → Option GitError
unfolding has_prefix
validate_git_ref ref = if has_prefix ref (codes "-") then some flag_ref else none

-- `GitAliasesPath`
unfoldable pub git_aliases_path : {W : Type 0} → Git W → Bytes → Bytes → Option Bytes
unfolding has_prefix
git_aliases_path git cache_dir rel_path =
    if is_empty rel_path
    then some (git.join cache_dir (codes "aliases.yaml"))
    else elim (git.rel cache_dir (git.join cache_dir rel_path)) [
      | none ↦ none
      | some rel ↦
          if same rel (codes "..") || has_prefix rel (codes ".." ++ git.separator)
          then none
          else some (git.join cache_dir rel_path)
    ]

abbrev pub clone_args : GitSource → List Bytes
clone_args s = codes "clone" ∷ codes "--quiet" ∷ codes "--" ∷ s.url ∷ s.cache_dir ∷ []

abbrev pub fetch_args : List Bytes
fetch_args = codes "fetch" ∷ codes "--quiet" ∷ codes "--prune" ∷ codes "origin" ∷ []

abbrev pub set_head_args : List Bytes
set_head_args = codes "remote" ∷ codes "set-head" ∷ codes "origin" ∷ codes "--auto" ∷ []

abbrev pub reset_args : Bytes → List Bytes
reset_args ref = codes "reset" ∷ codes "--hard" ∷ ref ∷ []

abbrev pub rev_parse_args : List Bytes
rev_parse_args = codes "rev-parse" ∷ codes "HEAD" ∷ []

-- A git command, and then the rest, unless it fails.
unfoldable pub git_then :
    {W : Type 0} → Result Bytes Bytes × W → (W → Option GitError × W) → Option GitError × W
git_then (err e, w) rest = (some (git_failure e), w)
git_then (ok out, w) rest = rest w

-- A call of the package os, and then the rest.
unfoldable pub os_then :
    {W : Type 0} → Result OsError Unit × W → (W → Option GitError × W) → Option GitError × W
os_then (err e, w) rest = (some (cache_dir_failure e), w)
os_then (ok u, w) rest = rest w

-- `fetchOrClone` up to the reset.
unfoldable pub update_checkout :
    {W : Type 0} → Git W → GitSource → Bool → (W → Option GitError × W) → W → Option GitError × W
unfolding git_then os_then
update_checkout git s had_checkout rest w =
    if had_checkout
    then git_then (git.run s.cache_dir fetch_args w) rest
    else os_then (git.mkdir_all (git.dir s.cache_dir) 0o700 w) (λ w1.
      git_then (git.run (git.dir s.cache_dir) (clone_args s) w1)
        (λ w2. os_then (git.chmod s.cache_dir 0o700 w2) rest))

-- The reset to the ref, or to the default branch.
unfoldable pub reset_checkout : {W : Type 0} → Git W → GitSource → W → Option GitError × W
unfolding git_then
reset_checkout git s w =
    if not (is_empty s.ref)
    then git_then (git.run s.cache_dir (reset_args s.ref) w) (λ w1. (none, w1))
    else git_then (git.run s.cache_dir set_head_args w) (λ w1.
      git_then (git.run s.cache_dir (reset_args (codes "refs/remotes/origin/HEAD")) w1)
        (λ w2. (none, w2)))

-- `fetchOrClone`: `none` is the error nil.
unfoldable pub fetch_or_clone : {W : Type 0} → Git W → GitSource → Bool → W → Option GitError × W
unfolding update_checkout reset_checkout
fetch_or_clone git s had_checkout w =
    update_checkout git s had_checkout (λ w1. reset_checkout git s w1) w

-- `resolveCommit`, whose error is ignored.
unfoldable pub commit_of : Result Bytes Bytes → Bytes
unfolding trim_space
commit_of (err e) = []
commit_of (ok out) = trim_space out

-- `checkoutFetchedAt`
unfoldable pub checkout_fetched_at : {W : Type 0} → Git W → GitSource → W → Time
checkout_fetched_at git s w =
    elim (git.modified (git.join (git.join s.cache_dir (codes ".git")) (codes "FETCH_HEAD")) w) [
      | none ↦ 0
      | some t ↦ t
    ]

-- The end of `Resolve`: what `LastResolve` reports, and the aliases of the checkout.
unfoldable pub read_checkout :
    {W : Type 0}
    → (Bytes → Bytes)
    → (ℕ → ℕ)
    → (Bytes → Result Bytes AliasesFileDto)
    → Disk W
    → Git W
    → GitSource
    → Device
    → Bool
    → W
    → Result GitError (ResolvedConfig × GitInfo) × W
unfolding commit_of checkout_fetched_at git_aliases_path resolve_file
read_checkout hash lower decode_yaml disk git s dev stale w =
    let (out, w1) = git.run s.cache_dir rev_parse_args w in
    let info : GitInfo = record {
      resolved_ref = if is_empty s.ref then codes "HEAD" else s.ref;
      commit = commit_of out;
      fetched_at = checkout_fetched_at git s w1;
      stale = stale;
    } in
    elim (git_aliases_path git s.cache_dir s.path) [
      | none ↦ (err path_escapes, w1)
      | some path ↦ elim (resolve_file hash lower decode_yaml disk path dev w1) [
        | err e ↦ (err (git_file e), w1)
        | ok c ↦ (ok (c, info), w1)
      ]
    ]

-- `GitSource.Resolve`
unfoldable pub git_resolve :
    {W : Type 0}
    → (Bytes → Bytes)
    → (ℕ → ℕ)
    → (Bytes → Result Bytes AliasesFileDto)
    → Disk W
    → Git W
    → GitSource
    → Device
    → W
    → Result GitError (ResolvedConfig × GitInfo) × W
unfolding validate_git_url validate_git_ref fetch_or_clone read_checkout
git_resolve hash lower decode_yaml disk git s dev w = elim (validate_git_url s.url) [
  | some e ↦ (err e, w)
  | none ↦ elim (validate_git_ref s.ref) [
    | some e ↦ (err e, w)
    | none ↦ elim (git.is_dir (git.join s.cache_dir (codes ".git")) w) [
      | err e ↦ (err (cache_check e), w)
      | ok had_checkout ↦
          let (failed, w1) = fetch_or_clone git s had_checkout w in
          elim failed [
            | none ↦ read_checkout hash lower decode_yaml disk git s dev false w1
            | some e ↦
                if not had_checkout
                then (err e, w1)
                else read_checkout hash lower decode_yaml disk git s dev true w1
          ]
    ]
  ]
]
