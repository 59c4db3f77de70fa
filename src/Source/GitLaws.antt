-- ===== src/Source/GitLaws.antt =====
-- What a Git source lets git see, and when it serves what it has cached.
use aliasdeck.Prelude.{
  ℕ, ◌≡◌, refl, sym, ap, ◌∙◌, ◌⊎◌, inl, inr, Bool, true, false, List, Option, none, some, is_empty,
  Bool-cases, Option-cases, arith,
}
use aliasdeck.Prelude.{Result, ok, err, Result-cases}
use mathlib.Core.Path.{subst}
use mathlib.Core.List.{map}
use aliasdeck.Text.{Bytes, codes, has_prefix, to_lower_byte}
use aliasdeck.Domain.Alias.{Device}
use aliasdeck.Domain.Resolved.{ResolvedConfig}
use aliasdeck.Config.Aliases.{AliasesFileDto}
use aliasdeck.Apply.Atomic.{Disk, OsError}
use aliasdeck.Source.File.{resolve_file}
use aliasdeck.Source.GitPath.{IsBelow, git_aliases_path-IsBelow}
use aliasdeck.Source.Git.{
  GitSource, Git, GitError, GitInfo, validate_git_url, validate_git_ref, git_aliases_path,
  clone_args, fetch_args, set_head_args, reset_args, rev_parse_args, git_then, os_then,
  update_checkout, reset_checkout, fetch_or_clone, read_checkout, git_resolve,
}

-- A URL and a ref that git cannot read as a flag, nor as a command to run.
pub record IsPlain (s : GitSource) : Type 0 where
  pub some_url : is_empty s.url ≡ false
  pub no_flag_url : has_prefix s.url (codes "-") ≡ false
  pub no_ext_url : has_prefix (map to_lower_byte s.url) (codes "ext::") ≡ false
  pub no_flag_ref : has_prefix s.ref (codes "-") ≡ false

-- The commands that a sync may run.
pub data IsAllowed (s : GitSource) (args : List Bytes) : Type 0 where
  clones : IsPlain s → args ≡ clone_args s → IsAllowed s args
  fetches : args ≡ fetch_args → IsAllowed s args
  sets_head : args ≡ set_head_args → IsAllowed s args
  resets : IsPlain s → args ≡ reset_args s.ref → IsAllowed s args
  resets_default : args ≡ reset_args (codes "refs/remotes/origin/HEAD") → IsAllowed s args
  reads_commit : args ≡ rev_parse_args → IsAllowed s args

validate-IsPlain :
    (s : GitSource) → validate_git_url s.url ≡ none → validate_git_ref s.ref ≡ none → IsPlain s
unfolding validate_git_url validate_git_ref
validate-IsPlain s h k = record {
  some_url = ground (arith, h);
  no_flag_url = ground (arith, h);
  no_ext_url = ground (arith, h);
  no_flag_ref = ground (arith, k);
}

-- A property of the machine that the allowed commands keep, and the calls of the package os.
pub record IsKeptBy {W : Type 0} (git : Git W) (s : GitSource) (P : W → Type 0) : Type 0 where
  pub kept_run :
      (dir : Bytes) (args : List Bytes) (w : W) → IsAllowed s args → P w → P (git.run dir args w).1
  pub kept_mkdir : (dir : Bytes) (mode : ℕ) (w : W) → P w → P (git.mkdir_all dir mode w).1
  pub kept_chmod : (dir : Bytes) (mode : ℕ) (w : W) → P w → P (git.chmod dir mode w).1

module _ {W : Type 0} (P : W → Type 0) where
  git_then-kept :
      (r : Result Bytes Bytes × W) (rest : W → Option GitError × W)
      → P r.1
      → ((w : W) → P w → P (rest w).1)
      → P (git_then r rest).1
  unfolding git_then
  git_then-kept (err e, w) rest h k = h
  git_then-kept (ok out, w) rest h k = k w h

  os_then-kept :
      (r : Result OsError Unit × W) (rest : W → Option GitError × W)
      → P r.1
      → ((w : W) → P w → P (rest w).1)
      → P (os_then r rest).1
  unfolding os_then
  os_then-kept (err e, w) rest h k = h
  os_then-kept (ok u, w) rest h k = k w h

  module _ (git : Git W) (s : GitSource) (keeps : IsKeptBy git s P) (plain : IsPlain s) where
    reset_checkout-kept : (w : W) → P w → P (reset_checkout git s w).1
    unfolding reset_checkout
    reset_checkout-kept w h = elim (Bool-cases (is_empty s.ref)) [
      | inr e ↦
          rw (reset_checkout, e)
            (git_then-kept (git.run s.cache_dir (reset_args s.ref) w) (λ w1. (none, w1))
              (keeps.kept_run s.cache_dir (reset_args s.ref) w (resets plain refl) h) (λ w1 k. k))
      | inl e ↦
          let default = reset_args (codes "refs/remotes/origin/HEAD") in
          rw (reset_checkout, e)
            (git_then-kept (git.run s.cache_dir set_head_args w)
              (λ w1. git_then (git.run s.cache_dir default w1) (λ w2. (none, w2)))
              (keeps.kept_run s.cache_dir set_head_args w (sets_head refl) h)
              (λ w1 k.
                git_then-kept (git.run s.cache_dir default w1) (λ w2. (none, w2))
                  (keeps.kept_run s.cache_dir default w1 (resets_default refl) k) (λ w2 m. m)))
    ]

    fetch_or_clone-kept :
        (had_checkout : Bool) (w : W) → P w → P (fetch_or_clone git s had_checkout w).1
    unfolding fetch_or_clone update_checkout
    fetch_or_clone-kept true w h =
        git_then-kept (git.run s.cache_dir fetch_args w) (λ w1. reset_checkout git s w1)
          (keeps.kept_run s.cache_dir fetch_args w (fetches refl) h) reset_checkout-kept
    fetch_or_clone-kept false w h =
        os_then-kept (git.mkdir_all (git.dir s.cache_dir) 0o700 w) _
          (keeps.kept_mkdir (git.dir s.cache_dir) 0o700 w h)
          (λ w1 k.
            git_then-kept (git.run (git.dir s.cache_dir) (clone_args s) w1) _
              (keeps.kept_run (git.dir s.cache_dir) (clone_args s) w1 (clones plain refl) k)
              (λ w2 m.
                os_then-kept (git.chmod s.cache_dir 0o700 w2) (λ w3. reset_checkout git s w3)
                  (keeps.kept_chmod s.cache_dir 0o700 w2 m) reset_checkout-kept))

  module _ (hash : Bytes → Bytes) (lower : ℕ → ℕ)
      (decode_yaml : Bytes → Result Bytes AliasesFileDto) (disk : Disk W) (git : Git W)
      (s : GitSource) (dev : Device) (keeps : IsKeptBy git s P) where
    read_checkout-kept :
        (stale : Bool) (w : W)
        → P w
        → P (read_checkout hash lower decode_yaml disk git s dev stale w).1
    unfolding read_checkout
    read_checkout-kept stale w h =
        let w1 = (git.run s.cache_dir rev_parse_args w).1 in
        let kept = keeps.kept_run s.cache_dir rev_parse_args w (reads_commit refl) h in
        elim (Option-cases (git_aliases_path git s.cache_dir s.path)) [
          | inl e ↦ rw (read_checkout, e) kept
          | inr (path, e) ↦
              elim (Result-cases (resolve_file hash lower decode_yaml disk path dev w1)) [
                | inl (x, f) ↦ rw (read_checkout, e, f) kept
                | inr (c, f) ↦ rw (read_checkout, e, f) kept
              ]
        ]

    -- Whatever the URL and the ref of the configuration are, `Resolve` runs no git command but its own six,
    -- and passes the URL and the ref only where they are no flags and the URL does not name the transport
    -- `ext::`: a property of the machine that these commands and the calls of the package os keep is kept.
    pub git_resolve-kept : (w : W) → P w → P (git_resolve hash lower decode_yaml disk git s dev w).1
    unfolding git_resolve
    git_resolve-kept w h = elim (Option-cases (validate_git_url s.url)) [
      | inr (x, e) ↦ rw (git_resolve, e) h
      | inl e ↦ elim (Option-cases (validate_git_ref s.ref)) [
        | inr (x, f) ↦ rw (git_resolve, e, f) h
        | inl f ↦ elim (Result-cases (git.is_dir (git.join s.cache_dir (codes ".git")) w)) [
          | inl (x, g) ↦ rw (git_resolve, e, f, g) h
          | inr (true, g) ↦
              let kept = fetch_or_clone-kept git s keeps (validate-IsPlain s e f) true w h in
              let w1 = (fetch_or_clone git s true w).1 in
              elim (Option-cases (fetch_or_clone git s true w).0) [
                | inl k ↦ rw (git_resolve, e, f, g, k) (read_checkout-kept false w1 kept)
                | inr (x, k) ↦ rw (git_resolve, e, f, g, k) (read_checkout-kept true w1 kept)
              ]
          | inr (false, g) ↦
              let kept = fetch_or_clone-kept git s keeps (validate-IsPlain s e f) false w h in
              elim (Option-cases (fetch_or_clone git s false w).0) [
                | inl k ↦
                    rw (git_resolve, e, f, g, k)
                      (read_checkout-kept false (fetch_or_clone git s false w).1 kept)
                | inr (x, k) ↦ rw (git_resolve, e, f, g, k) kept
              ]
        ]
      ]
    ]

-- The file of the checkout that a configuration was read from, behind the world `w1` of the fetch.
pub record IsRead {W : Type 0} (hash : Bytes → Bytes) (lower : ℕ → ℕ)
    (decode_yaml : Bytes → Result Bytes AliasesFileDto) (disk : Disk W) (git : Git W)
    (s : GitSource) (dev : Device) (c : ResolvedConfig) (w1 w' : W) : Type 0 where
  pub path : Bytes
  pub inside : IsBelow git s.cache_dir s.path path
  pub config : resolve_file hash lower decode_yaml disk path dev w' ≡ ok c
  pub read_commit : w' ≡ (git.run s.cache_dir rev_parse_args w1).1

module _ {W : Type 0} (hash : Bytes → Bytes) (lower : ℕ → ℕ)
    (decode_yaml : Bytes → Result Bytes AliasesFileDto) (disk : Disk W) (git : Git W)
    (s : GitSource) (dev : Device) where
  read_checkout-IsRead :
      (stale : Bool) (w1 : W) (c : ResolvedConfig) (info : GitInfo) (w' : W)
      → read_checkout hash lower decode_yaml disk git s dev stale w1 ≡ (ok (c, info), w')
      → (info.stale ≡ stale) × IsRead hash lower decode_yaml disk git s dev c w1 w'
  unfolding read_checkout
  read_checkout-IsRead stale w1 c info w' h =
      let w2 = (git.run s.cache_dir rev_parse_args w1).1 in
      elim (Option-cases (git_aliases_path git s.cache_dir s.path)) [
        | inl e ↦ ground (arith, e)
        | inr (path, e) ↦
            elim (Result-cases (resolve_file hash lower decode_yaml disk path dev w2)) [
              | inl (x, f) ↦ ground (arith, e, f)
              | inr (c', f) ↦
                  let it : c' ≡ c = ground (arith, e, f) in
                  let after : w2 ≡ w' = ground (arith, e, f) in
                  (
                    ground (arith, e, f),
                    record {
                      path = path;
                      inside = git_aliases_path-IsBelow git s.cache_dir s.path path e;
                      config =
                          subst (λ u. resolve_file hash lower decode_yaml disk path dev u ≡ ok c)
                            after (f ∙ ap ok it);
                      read_commit = sym after;
                    },
                  )
            ]
      ]

  -- A Git source reports the aliases it serves as stale exactly where the update of the checkout failed, which
  -- it survives only where a checkout was there before. It reads them from the default file, or from a path
  -- whose spelling relative to the checkout is not `..` and does not begin with `..` and a separator; symbolic
  -- links are not looked at.
  pub git_resolve-ok :
      (w : W) (c : ResolvedConfig) (info : GitInfo) (w' : W)
      → git_resolve hash lower decode_yaml disk git s dev w ≡ (ok (c, info), w')
      → (had : Bool) × (git.is_dir (git.join s.cache_dir (codes ".git")) w ≡ ok had)
        × (((info.stale ≡ false) × ((fetch_or_clone git s had w).0 ≡ none))
            ⊎ ((info.stale ≡ true)
                × (had ≡ true)
                × ((x : GitError) × ((fetch_or_clone git s had w).0 ≡ some x))))
        × IsRead hash lower decode_yaml disk git s dev c (fetch_or_clone git s had w).1 w'
  unfolding git_resolve
  git_resolve-ok w c info w' h = elim (Option-cases (validate_git_url s.url)) [
    | inr (x, e) ↦ ground (arith, e)
    | inl e ↦ elim (Option-cases (validate_git_ref s.ref)) [
      | inr (x, f) ↦ ground (arith, e, f)
      | inl f ↦ elim (Result-cases (git.is_dir (git.join s.cache_dir (codes ".git")) w)) [
        | inl (x, g) ↦ ground (arith, e, f, g)
        | inr (had, g) ↦ elim (Option-cases (fetch_or_clone git s had w).0) [
          | inl k ↦
              let (stale, read) =
                read_checkout-IsRead false (fetch_or_clone git s had w).1 c info w'
                  (ground (arith, e, f, g, k)) in
              (had, g, inl (stale, k), read)
          | inr (x, k) ↦ elim (Bool-cases had) [
            | inr m ↦ ground (arith, e, f, g, k, m)
            | inl m ↦
                let (stale, read) =
                  read_checkout-IsRead true (fetch_or_clone git s had w).1 c info w'
                    (ground (arith, e, f, g, k, m)) in
                (had, g, inr (stale, m, (x, k)), read)
          ]
        ]
      ]
    ]
  ]
