-- ===== src/Validate/Clean.antt =====
-- What a configuration without issues is like.
use aliasdeck.Prelude.{ℕ, ◌≤◌, ◌≡◌, ◌≢◌, refl, true, List, [], ◌∷◌, ◌++◌, none, length, All, arith}
use aliasdeck.Text.{Bytes}
use aliasdeck.Domain.Alias.{Alias, Device}
use aliasdeck.Domain.Shell.{Shell, Platform, platform_valid, shell_valid}
use aliasdeck.Domain.Resolved.{ResolvedConfig}
use aliasdeck.Utf8.Clean.{All-append}
use aliasdeck.Validate.Name.{check_name}
use aliasdeck.Validate.Command.{check_command, check_description}
use aliasdeck.Validate.Issues.{
  Issues, is_error, errors, add_error, name_issues, command_issues, description_issues,
  platform_issues, shell_issues, alias_issues, duplicate_key, device_issues, count_issues,
  loop_issues, config_issues, max_aliases, config_error,
}
use aliasdeck.Validate.FilterLaws.{alias_issues-IsErrorOf, duplicate_issue, IsErrorOf}

pub nil_of_append : {A : Type 0} (xs ys : List A) → xs ++ ys ≡ [] → (xs ≡ []) × (ys ≡ [])
nil_of_append [] ys h = (refl, h)
nil_of_append (x ∷ xs) ys h = cc

-- The three texts of an alias pass their checks, and its platforms and shells are known.
pub record IsCleanAlias (a : Alias) (sh : Shell) : Type 0 where
  pub name_ok : check_name a.name sh ≡ none
  pub command_ok : check_command a.command ≡ none
  pub description_ok : check_description a.description ≡ none
  pub platforms_ok : All (λ p. platform_valid p ≡ true) a.platforms
  pub shells_ok : All (λ s. shell_valid s ≡ true) a.shells

platforms_of_clean :
    (a : Alias) (ps : List Platform)
    → platform_issues a ps ≡ []
    → All (λ p. platform_valid p ≡ true) ps
unfolding platform_issues
platforms_of_clean a [] h = tt
platforms_of_clean a (p ∷ ps) h = ground (arith, platforms_of_clean a ps)

shells_of_clean :
    (a : Alias) (ss : List Shell) → shell_issues a ss ≡ [] → All (λ s. shell_valid s ≡ true) ss
unfolding shell_issues
shells_of_clean a [] h = tt
shells_of_clean a (s ∷ ss) h = ground (arith, shells_of_clean a ss)

name_of_clean : (a : Alias) (sh : Shell) → name_issues a sh ≡ [] → check_name a.name sh ≡ none
unfolding name_issues
name_of_clean a sh h = ground arith

command_of_clean : (a : Alias) → command_issues a ≡ [] → check_command a.command ≡ none
unfolding command_issues
command_of_clean a h = ground arith

description_of_clean :
    (a : Alias) → description_issues a ≡ [] → check_description a.description ≡ none
unfolding description_issues
description_of_clean a h = ground arith

pub alias_issues-IsCleanAlias :
    (a : Alias) (sh : Shell) → alias_issues a sh ≡ [] → IsCleanAlias a sh
unfolding alias_issues
alias_issues-IsCleanAlias a sh h =
    let n = name_issues a sh in
    let c = command_issues a in
    let d = description_issues a in
    let p = platform_issues a a.platforms in
    let (h1, s) = nil_of_append (n ++ c ++ d ++ p) (shell_issues a a.shells) h in
    let (h2, q) = nil_of_append (n ++ c ++ d) p h1 in
    let (h3, e) = nil_of_append (n ++ c) d h2 in
    let (f, g) = nil_of_append n c h3 in
    record {
      name_ok = name_of_clean a sh f;
      command_ok = command_of_clean a g;
      description_ok = description_of_clean a e;
      platforms_ok = platforms_of_clean a a.platforms q;
      shells_ok = shells_of_clean a a.shells s;
    }

-- A configuration without issues: a known device, few aliases, each clean.
pub record IsCleanConfig (lower : ℕ → ℕ) (cfg : ResolvedConfig) : Type 0 where
  pub platform_ok : platform_valid cfg.device.platform ≡ true
  pub shell_ok : shell_valid cfg.device.shell ≡ true
  pub few : length cfg.aliases ≤ max_aliases
  pub aliases_ok : All (λ a. alias_issues a cfg.device.shell ≡ []) cfg.aliases

module _ (lower : ℕ → ℕ) where
  aliases_of_clean :
      (sh : Shell) (seen : List Bytes) (aliases : List Alias)
      → loop_issues lower sh seen aliases ≡ []
      → All (λ a. alias_issues a sh ≡ []) aliases
  unfolding loop_issues
  aliases_of_clean sh seen [] h = tt
  aliases_of_clean sh seen (a ∷ aliases) h =
      let key = duplicate_key lower a.name sh in
      let (own, more) = nil_of_append (alias_issues a sh) _ h in
      let (dup, rest) = nil_of_append (duplicate_issue seen key a) _ more in
      (own, aliases_of_clean sh (key ∷ seen) aliases rest)

  pub config_issues-IsCleanConfig :
      (cfg : ResolvedConfig) → config_issues lower cfg ≡ [] → IsCleanConfig lower cfg
  unfolding config_issues
  config_issues-IsCleanConfig cfg h =
      let (d, more) = nil_of_append (device_issues cfg.device) _ h in
      let (c, loop) = nil_of_append (count_issues cfg.aliases) _ more in
      record {
        platform_ok = unfold device_issues config_error in ground (arith, d);
        shell_ok = unfold device_issues config_error in ground (arith, d);
        few = unfold count_issues config_error in ground (arith, c);
        aliases_ok = aliases_of_clean cfg.device.shell [] cfg.aliases loop;
      }

-- An alias without a name is never clean.
pub name_of_alias_issues : (a : Alias) (sh : Shell) → alias_issues a sh ≡ [] → a.name ≢ []
unfolding check_name
name_of_alias_issues a sh h e =
    let c = alias_issues-IsCleanAlias a sh h in ground (arith, c.name_ok)

errors_of_All : (is : Issues) → All (λ i. is_error i ≡ true) is → errors is ≡ is
unfolding errors
errors_of_All [] h = refl
errors_of_All (i ∷ is) h = rw (h.0, errors_of_All is h.1)

All-of_IsErrorOf :
    (a : Alias) (is : Issues) → All (IsErrorOf a) is → All (λ i. is_error i ≡ true) is
All-of_IsErrorOf a [] h = tt
All-of_IsErrorOf a (i ∷ is) h = (h.0.1, All-of_IsErrorOf a is h.1)

device_issues-errors : (d : Device) → All (λ i. is_error i ≡ true) (device_issues d)
unfolding device_issues config_error is_error
device_issues-errors d = ground arith

count_issues-errors : (aliases : List Alias) → All (λ i. is_error i ≡ true) (count_issues aliases)
unfolding count_issues config_error is_error
count_issues-errors aliases = ground arith

duplicate_issue-errors :
    (seen : List Bytes) (key : Bytes) (a : Alias)
    → All (λ i. is_error i ≡ true) (duplicate_issue seen key a)
unfolding add_error is_error
duplicate_issue-errors seen key a = ground arith

loop_issues-errors :
    (lower : ℕ → ℕ) (sh : Shell) (seen : List Bytes) (aliases : List Alias)
    → All (λ i. is_error i ≡ true) (loop_issues lower sh seen aliases)
unfolding loop_issues
loop_issues-errors lower sh seen [] = tt
loop_issues-errors lower sh seen (a ∷ aliases) =
    let key = duplicate_key lower a.name sh in
    All-append _ (alias_issues a sh) _
      (All-of_IsErrorOf a (alias_issues a sh) (alias_issues-IsErrorOf a sh))
      (All-append _ (duplicate_issue seen key a) _ (duplicate_issue-errors seen key a)
        (loop_issues-errors lower sh (key ∷ seen) aliases))

-- `Config` reports errors only.
pub errors-config_issues :
    (lower : ℕ → ℕ) (cfg : ResolvedConfig)
    → errors (config_issues lower cfg) ≡ config_issues lower cfg
unfolding config_issues
errors-config_issues lower cfg = errors_of_All _ (
    All-append _ (device_issues cfg.device) _ (device_issues-errors cfg.device) (
      All-append _ (count_issues cfg.aliases) _ (count_issues-errors cfg.aliases)
        (loop_issues-errors lower cfg.device.shell [] cfg.aliases)))
