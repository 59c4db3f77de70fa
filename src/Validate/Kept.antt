-- ===== src/Validate/Kept.antt =====
-- `FilterValid` as a whole: what is left is clean, what is good is left, and what it cannot drop.
use aliasdeck.Prelude.{
  ℕ, ◌≤◌, ◌≡◌, ◌≢◌, refl, sym, ap, ◌∙◌, ◌↔◌, inl, inr, true, false, List, [], ◌∷◌, ◌++◌, length,
  All, In, Bool-cases, arith,
}
use aliasdeck.Text.{Bytes, same, contains_text}
use aliasdeck.Text.Equality.{same_iff, same_refl}
use aliasdeck.Domain.Alias.{Alias, Device}
use aliasdeck.Domain.Shell.{Shell, platform_valid, shell_valid}
use aliasdeck.Domain.Resolved.{ResolvedConfig}
use aliasdeck.Utf8.Clean.{All-append}
use aliasdeck.Validate.Issues.{
  Issue, Issues, is_error, errors, add_error, alias_issues, duplicate_key, device_issues,
  count_issues, loop_issues, config_issues, max_aliases, config_error,
}
use aliasdeck.Validate.Filter.{blocked_names, filter_aliases, filter_valid}
use aliasdeck.Domain.Resolution.{All-In}
use aliasdeck.Validate.Clean.{name_of_alias_issues, config_issues-IsCleanConfig}
use aliasdeck.Validate.FilterLaws.{
  IsErrorOf, alias_issues-IsErrorOf, BlockedBy, Within, duplicate_issue, loop_issues-filter_aliases,
}

-- Every alias has a name.
abbrev pub AllNamed : List Alias → Type 0
AllNamed = All (λ a. a.name ≢ [])

-- An error that names some alias.
abbrev IsNamedError : Issue → Type 0
IsNamedError i = (i.alias_name ≢ []) × (is_error i ≡ true)

IsNamedError-ne_nil :
    (a : Alias) → a.name ≢ [] → (is : Issues) → All (IsErrorOf a) is → All IsNamedError is
IsNamedError-ne_nil a h [] k = tt
IsNamedError-ne_nil a h (i ∷ is) k = (ground (arith, k.0.0), IsNamedError-ne_nil a h is k.1)

duplicate_issue-IsNamedError :
    (seen : List Bytes) (key : Bytes) (a : Alias)
    → a.name ≢ []
    → All IsNamedError (duplicate_issue seen key a)
unfolding add_error is_error
duplicate_issue-IsNamedError seen key a h = ground arith

loop_issues-IsNamedError :
    (lower : ℕ → ℕ) (sh : Shell) (seen : List Bytes) (aliases : List Alias)
    → AllNamed aliases
    → All IsNamedError (loop_issues lower sh seen aliases)
unfolding loop_issues
loop_issues-IsNamedError lower sh seen [] h = tt
loop_issues-IsNamedError lower sh seen (a ∷ aliases) h =
    All-append IsNamedError (alias_issues a sh) _
      (IsNamedError-ne_nil a h.0 (alias_issues a sh) (alias_issues-IsErrorOf a sh))
      (All-append IsNamedError (duplicate_issue seen (duplicate_key lower a.name sh) a) _
        (duplicate_issue-IsNamedError seen (duplicate_key lower a.name sh) a h.0)
        (loop_issues-IsNamedError lower sh (duplicate_key lower a.name sh ∷ seen) aliases h.1))

-- The names of named errors are blocked by every set that holds all blocked names.
blocked_names_complete :
    (blocked : List Bytes) (is : Issues)
    → All IsNamedError is
    → Within (blocked_names (errors is)) blocked
    → BlockedBy blocked is
unfolding blocked_names errors contains_text
blocked_names_complete blocked [] h w = tt
blocked_names_complete blocked (i ∷ is) h w = (
  w i.alias_name (ground (arith, h.0, same_refl i.alias_name)),
  blocked_names_complete blocked is h.1 (λ k e. w k (ground (arith, h.0))),
)

-- Issues that come first block no less.
Within-blocked_names :
    (first is : Issues) → Within (blocked_names (errors is)) (blocked_names (errors (first ++ is)))
unfolding blocked_names errors contains_text
Within-blocked_names [] is k e = e
Within-blocked_names (i ∷ first) is k e = ground (arith, Within-blocked_names first is k e)

length-filter_aliases :
    (blocked : List Bytes) (aliases : List Alias)
    → length (filter_aliases blocked aliases) ≤ length aliases
unfolding filter_aliases
length-filter_aliases blocked [] = omega arith
length-filter_aliases blocked (a ∷ aliases) = ground (arith, length-filter_aliases blocked aliases)

device_issues_of_valid :
    (d : Device)
    → platform_valid d.platform ≡ true
    → shell_valid d.shell ≡ true
    → device_issues d ≡ []
unfolding device_issues
device_issues_of_valid d p s = ground arith

count_issues_of_few :
    (aliases : List Alias) → length aliases ≤ max_aliases → count_issues aliases ≡ []
unfolding count_issues
count_issues_of_few aliases h = ground arith

nil_of_parts : (xs ys zs : Issues) → xs ≡ [] → ys ≡ [] → zs ≡ [] → xs ++ (ys ++ zs) ≡ []
nil_of_parts xs ys zs h k l = rw (h, k, l)

-- After `FilterValid` `Config` has nothing left to report, if platform and shell are known, there are
-- at most 5000 aliases, and every alias has a name.
pub config_issues-filter_valid :
    (lower : ℕ → ℕ) (cfg : ResolvedConfig)
    → platform_valid cfg.device.platform ≡ true
    → shell_valid cfg.device.shell ≡ true
    → length cfg.aliases ≤ max_aliases
    → AllNamed cfg.aliases
    → config_issues lower (filter_valid lower cfg).0 ≡ []
unfolding config_issues filter_valid
config_issues-filter_valid lower cfg p s few names =
    let sh = cfg.device.shell in
    let loop = loop_issues lower sh [] cfg.aliases in
    let blocked =
      blocked_names (errors (device_issues cfg.device ++ (count_issues cfg.aliases ++ loop))) in
    let all_blocked : BlockedBy blocked loop =
      blocked_names_complete blocked loop (loop_issues-IsNamedError lower sh [] cfg.aliases names)
        (λ k e.
          Within-blocked_names (device_issues cfg.device) _ k
            (Within-blocked_names (count_issues cfg.aliases) loop k e)) in
    nil_of_parts (device_issues cfg.device) (count_issues (filter_aliases blocked cfg.aliases)) _
      (device_issues_of_valid cfg.device p s)
      (count_issues_of_few (filter_aliases blocked cfg.aliases)
        (omega (arith, length-filter_aliases blocked cfg.aliases)))
      (loop_issues-filter_aliases lower sh blocked [] [] cfg.aliases (λ k e. e) all_blocked)

In-filter_aliases :
    (blocked : List Bytes) (a : Alias) (aliases : List Alias)
    → In a (filter_aliases blocked aliases)
      ↔ (In a aliases × (contains_text blocked a.name ≡ false))
unfolding filter_aliases
In-filter_aliases blocked a [] = (λ h. absurd h, λ h. absurd h.0)
In-filter_aliases blocked a (b ∷ bs) = elim (Bool-cases (contains_text blocked b.name)) [
  | inl e ↦ rw e (
      (
        λ h. let (i, k) = (In-filter_aliases blocked a bs).0 h in (inr i, k),
        λ (h, k). elim h [
          | inl q ↦ cc (ap (λ (x : Alias). contains_text blocked x.name) q)
          | inr i ↦ (In-filter_aliases blocked a bs).1 (i, k)
        ],
      ))
  | inr e ↦ rw e (
      (
        λ h. elim h [
          | inl q ↦ (inl q, cc (ap (λ (x : Alias). contains_text blocked x.name) q))
          | inr i ↦ let (j, k) = (In-filter_aliases blocked a bs).0 i in (inr j, k)
        ],
        λ (h, k). elim h [
          | inl q ↦ inl q
          | inr i ↦ inr ((In-filter_aliases blocked a bs).1 (i, k))
        ],
      ))
]

-- A name that no issue carries is not blocked.
not_blocked :
    (n : Bytes) (is : Issues)
    → All (λ i. i.alias_name ≢ n) is
    → contains_text (blocked_names (errors is)) n ≡ false
unfolding blocked_names errors contains_text
not_blocked n [] h = refl
not_blocked n (i ∷ is) h = ground (arith, not_blocked n is h.1, same_iff i.alias_name n)

-- The issues of other aliases carry other names.
other_of_IsErrorOf :
    (n : Bytes) (b : Alias) (is : Issues)
    → b.name ≢ n
    → All (IsErrorOf b) is
    → All (λ i. i.alias_name ≢ n) is
other_of_IsErrorOf n b [] h k = tt
other_of_IsErrorOf n b (i ∷ is) h k = (λ e. h (sym k.0.0 ∙ e), other_of_IsErrorOf n b is h k.1)

duplicate_issue-other :
    (n : Bytes) (seen : List Bytes) (key : Bytes) (b : Alias)
    → b.name ≢ n
    → All (λ i. i.alias_name ≢ n) (duplicate_issue seen key b)
unfolding add_error
duplicate_issue-other n seen key b h = ground arith

module _ (lower : ℕ → ℕ) (sh : Shell) (n : Bytes) where
  abbrev Others : Issues → Type 0
  Others = All (λ i. i.alias_name ≢ n)

  alias-Others :
      (seen : List Bytes) (b : Alias) (rest : Issues)
      → b.name ≢ n
      → Others rest
      → Others
          (alias_issues b sh ++ (duplicate_issue seen (duplicate_key lower b.name sh) b ++ rest))
  alias-Others seen b rest h k =
      All-append _ (alias_issues b sh) _
        (other_of_IsErrorOf n b (alias_issues b sh) h (alias_issues-IsErrorOf b sh))
        (All-append _ (duplicate_issue seen (duplicate_key lower b.name sh) b) rest
          (duplicate_issue-other n seen (duplicate_key lower b.name sh) b h) k)

  loop_issues-Others :
      (seen : List Bytes) (aliases : List Alias)
      → All (λ b. b.name ≢ n) aliases
      → Others (loop_issues lower sh seen aliases)
  unfolding loop_issues
  loop_issues-Others seen [] h = tt
  loop_issues-Others seen (b ∷ bs) h =
      alias-Others seen b _ h.0 (loop_issues-Others (duplicate_key lower b.name sh ∷ seen) bs h.1)

-- Its key stands for no other alias of the list.
abbrev pub HasOtherKey : (ℕ → ℕ) → Shell → Alias → Alias → Type 0
HasOtherKey lower sh a b = duplicate_key lower b.name sh ≢ duplicate_key lower a.name sh

other_name_of_key :
    (lower : ℕ → ℕ) (sh : Shell) (a : Alias) (bs : List Alias)
    → All (HasOtherKey lower sh a) bs
    → All (λ b. b.name ≢ a.name) bs
other_name_of_key lower sh a [] h = tt
other_name_of_key lower sh a (b ∷ bs) h =
    (λ e. h.0 (ap (λ n. duplicate_key lower n sh) e), other_name_of_key lower sh a bs h.1)

loop_issues-around :
    (lower : ℕ → ℕ) (sh : Shell) (a : Alias) (seen : List Bytes) (before after : List Alias)
    → alias_issues a sh ≡ []
    → contains_text seen (duplicate_key lower a.name sh) ≡ false
    → All (HasOtherKey lower sh a) before
    → All (HasOtherKey lower sh a) after
    → All (λ i. i.alias_name ≢ a.name) (loop_issues lower sh seen (before ++ a ∷ after))
unfolding loop_issues contains_text
loop_issues-around lower sh a seen [] after clean fresh h k =
    rw (clean, fresh)
      (loop_issues-Others lower sh a.name (duplicate_key lower a.name sh ∷ seen) after
        (other_name_of_key lower sh a after k))
loop_issues-around lower sh a seen (b ∷ bs) after clean fresh h k =
    alias-Others lower sh a.name seen b _ (λ e. h.0 (ap (λ n. duplicate_key lower n sh) e))
      (loop_issues-around lower sh a (duplicate_key lower b.name sh ∷ seen) bs after clean
        (ground (
          arith,
          same_iff (duplicate_key lower b.name sh) (duplicate_key lower a.name sh),
          fresh,
          h.0,
        ))
        h.1 k)

device_issues-nameless :
    (d : Device) (n : Bytes) → n ≢ [] → All (λ i. i.alias_name ≢ n) (device_issues d)
unfolding device_issues config_error
device_issues-nameless d n h = ground arith

count_issues-nameless :
    (aliases : List Alias) (n : Bytes) → n ≢ [] → All (λ i. i.alias_name ≢ n) (count_issues aliases)
unfolding count_issues config_error
count_issues-nameless aliases n h = ground arith

In-middle : {A : Type 0} (a : A) (before after : List A) → In a (before ++ a ∷ after)
In-middle a [] after = inl refl
In-middle a (b ∷ bs) after = inr (In-middle a bs after)

-- One bad alias does not stop another: an alias with no issue of its own, whose key no other alias has,
-- is kept, whatever the rest of the configuration holds.
pub filter_valid-keeps :
    (lower : ℕ → ℕ) (cfg : ResolvedConfig) (a : Alias) (before after : List Alias)
    → cfg.aliases ≡ before ++ a ∷ after
    → alias_issues a cfg.device.shell ≡ []
    → All (HasOtherKey lower cfg.device.shell a) before
    → All (HasOtherKey lower cfg.device.shell a) after
    → In a (filter_valid lower cfg).0.aliases
unfolding filter_valid config_issues contains_text
filter_valid-keeps lower cfg a before after at_a clean h k =
    let named = name_of_alias_issues a cfg.device.shell clean in
    let others : All (λ i. i.alias_name ≢ a.name)
        (loop_issues lower cfg.device.shell [] cfg.aliases) =
      rw at_a (loop_issues-around lower cfg.device.shell a [] before after clean refl h k) in
    (In-filter_aliases _ a cfg.aliases).1 (
      rw at_a (In-middle a before after),
      not_blocked a.name _ (
          All-append _ (device_issues cfg.device) _ (device_issues-nameless cfg.device a.name named)
            (All-append _ (count_issues cfg.aliases) _
              (count_issues-nameless cfg.aliases a.name named) others)),
    )

blocked_names-ne-nil : (is : Issues) → contains_text (blocked_names is) [] ≡ false
unfolding blocked_names contains_text same
blocked_names-ne-nil [] = refl
blocked_names-ne-nil (i ∷ is) = ground (arith, blocked_names-ne-nil is)

-- `FilterValid` keeps an alias with an empty name, and `Config` reports an issue for what it returns.
pub filter_valid-nameless :
    (lower : ℕ → ℕ) (cfg : ResolvedConfig) (a : Alias)
    → In a cfg.aliases
    → a.name ≡ []
    → In a (filter_valid lower cfg).0.aliases
      × (config_issues lower (filter_valid lower cfg).0 ≢ [])
unfolding filter_valid
filter_valid-nameless lower cfg a i e = (
  kept,
  λ clean.
      name_of_alias_issues a cfg.device.shell
        (All-In _ _ (config_issues-IsCleanConfig lower (filter_valid lower cfg).0 clean).aliases_ok
          kept)
        e,
)
  where
    kept : In a (filter_valid lower cfg).0.aliases
    kept = (In-filter_aliases _ a cfg.aliases).1 (i, rw e (blocked_names-ne-nil _))
