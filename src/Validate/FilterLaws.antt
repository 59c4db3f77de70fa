-- ===== src/Validate/FilterLaws.antt =====
-- What `FilterValid` keeps: all that is safe, and nothing that `Config` still reports.
use aliasdeck.Prelude.{
  ℕ, ◌≡◌, refl, inl, inr, true, false, List, [], ◌∷◌, ◌++◌, All, Bool-cases, if◌then◌else◌, arith,
}
use aliasdeck.Text.{Bytes, contains_text}
use aliasdeck.Domain.Alias.{Alias}
use aliasdeck.Domain.Shell.{Platform, Shell}
use aliasdeck.Utf8.Clean.{All-append}
use aliasdeck.Validate.Issues.{
  Issue, Issues, is_error, add_error, name_issues, command_issues, description_issues,
  platform_issues, shell_issues, alias_issues, duplicate_key, loop_issues, duplicate_name,
}
use aliasdeck.Validate.Filter.{filter_aliases}

-- An error that names the alias.
abbrev pub IsErrorOf : Alias → Issue → Type 0
IsErrorOf a i = (i.alias_name ≡ a.name) × (is_error i ≡ true)

module _ (a : Alias) where
  name_issues-IsErrorOf : (sh : Shell) → All (IsErrorOf a) (name_issues a sh)
  unfolding name_issues add_error is_error
  name_issues-IsErrorOf sh = ground arith

  command_issues-IsErrorOf : All (IsErrorOf a) (command_issues a)
  unfolding command_issues add_error is_error
  command_issues-IsErrorOf = ground arith

  description_issues-IsErrorOf : All (IsErrorOf a) (description_issues a)
  unfolding description_issues add_error is_error
  description_issues-IsErrorOf = ground arith

  platform_issues-IsErrorOf : (ps : List Platform) → All (IsErrorOf a) (platform_issues a ps)
  unfolding platform_issues add_error is_error
  platform_issues-IsErrorOf [] = tt
  platform_issues-IsErrorOf (p ∷ ps) = ground (arith, platform_issues-IsErrorOf ps)

  shell_issues-IsErrorOf : (ss : List Shell) → All (IsErrorOf a) (shell_issues a ss)
  unfolding shell_issues add_error is_error
  shell_issues-IsErrorOf [] = tt
  shell_issues-IsErrorOf (s ∷ ss) = ground (arith, shell_issues-IsErrorOf ss)

-- Every issue of an alias is an error that names it.
pub alias_issues-IsErrorOf : (a : Alias) (sh : Shell) → All (IsErrorOf a) (alias_issues a sh)
unfolding alias_issues
alias_issues-IsErrorOf a sh =
    All-append P _ _
      (All-append P _ _
        (All-append P _ _
          (All-append P _ _ (name_issues-IsErrorOf a sh) (command_issues-IsErrorOf a))
          (description_issues-IsErrorOf a))
        (platform_issues-IsErrorOf a a.platforms))
      (shell_issues-IsErrorOf a a.shells)
  where
    P : Issue → Type 0
    P = IsErrorOf a

-- Every issue's alias name is in the set.
abbrev pub BlockedBy : List Bytes → Issues → Type 0
BlockedBy blocked = All (λ i. contains_text blocked i.alias_name ≡ true)

-- One set of keys within another.
abbrev pub Within : List Bytes → List Bytes → Type 0
Within small large = (k : Bytes) → contains_text small k ≡ true → contains_text large k ≡ true

Within-cons :
    (k : Bytes) (small large : List Bytes) → Within small large → Within (k ∷ small) (k ∷ large)
unfolding contains_text
Within-cons k small large h j e = ground (arith, h j)

Within-skip : (k : Bytes) (small large : List Bytes) → Within small large → Within small (k ∷ large)
unfolding contains_text
Within-skip k small large h j e = ground (arith, h j)

All-append-left :
    {A : Type 0} (P : A → Type 0) (xs ys : List A) → All P (xs ++ ys) → All P xs × All P ys
All-append-left P [] ys h = (tt, h)
All-append-left P (x ∷ xs) ys h = let (l, r) = All-append-left P xs ys h.1 in ((h.0, l), r)

-- An alias that is not blocked has no issue, if every issue is blocked.
pub no_issues_of_kept :
    (blocked : List Bytes) (a : Alias) (is : Issues)
    → All (IsErrorOf a) is
    → BlockedBy blocked is
    → contains_text blocked a.name ≡ false
    → is ≡ []
no_issues_of_kept blocked a [] h k e = refl
no_issues_of_kept blocked a (i ∷ is) h k e = absurd (ground (arith, h.0.0, k.0))

abbrev pub duplicate_issue : List Bytes → Bytes → Alias → Issues
duplicate_issue seen key a =
    if contains_text seen key then add_error a "name" duplicate_name ∷ [] else []

not_duplicate :
    (blocked seen seen' : List Bytes) (key : Bytes) (a : Alias)
    → (contains_text seen' key ≡ true → contains_text seen key ≡ true)
    → BlockedBy blocked (duplicate_issue seen key a)
    → contains_text blocked a.name ≡ false
    → contains_text seen' key ≡ false
unfolding add_error
not_duplicate blocked seen seen' key a w h e = ground arith

module _ (lower : ℕ → ℕ) (sh : Shell) (blocked : List Bytes) where
  -- The aliases that are left after the blocked ones have gone raise no issue.
  pub loop_issues-filter_aliases :
      (seen seen' : List Bytes) (aliases : List Alias)
      → Within seen' seen
      → BlockedBy blocked (loop_issues lower sh seen aliases)
      → loop_issues lower sh seen' (filter_aliases blocked aliases) ≡ []
  unfolding loop_issues filter_aliases
  loop_issues-filter_aliases seen seen' [] w h = refl
  loop_issues-filter_aliases seen seen' (a ∷ aliases) w h =
      let key = duplicate_key lower a.name sh in
      let (own, more) = All-append-left _ (alias_issues a sh) _ h in
      let (dup, rest) = All-append-left _ (duplicate_issue seen key a) _ more in
      elim (Bool-cases (contains_text blocked a.name)) [
        | inl e ↦ rw e (
            loop_issues-filter_aliases (key ∷ seen) seen' aliases (Within-skip key seen' seen w)
              rest)
        | inr e ↦ rw e (
            ground (
              arith,
              no_issues_of_kept blocked a (alias_issues a sh) (alias_issues-IsErrorOf a sh) own e,
              not_duplicate blocked seen seen' key a (w key) dup e,
              loop_issues-filter_aliases (key ∷ seen) (key ∷ seen') aliases
                  (Within-cons key seen' seen w) rest,
            ))
      ]
