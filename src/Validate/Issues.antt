-- ===== src/Validate/Issues.antt =====
-- internal/validate/validate.go: the problems of one alias, and of a whole configuration.
use aliasdeck.Prelude.{
  ℕ, String, Bool, true, false, not, List, [], ◌∷◌, ◌++◌, none, some, length, any, keep, ltb,
  if◌then◌else◌,
}
use aliasdeck.Text.{Bytes, codes, same, contains_text}
use aliasdeck.Domain.Shell.{Platform, Shell, shell_powershell, platform_valid, shell_valid}
use aliasdeck.Domain.Alias.{Alias, Device}
use aliasdeck.Domain.Resolved.{ResolvedConfig}
use aliasdeck.Validate.Name.{NameError, check_name, to_lower}
use aliasdeck.Validate.Command.{TextError, check_command, check_description}

abbrev pub max_aliases : ℕ
max_aliases = 5000

pub data Severity : Type 0 where
  error warning : Severity

-- The message of an issue, with what the format string is filled with.
pub data Message : Type 0 where
  name_error : NameError → Message
  text_error : TextError → Message
  unknown_platform : Platform → Message
  unknown_shell : Shell → Message
  too_many_aliases : ℕ → Message
  duplicate_name : Message

pub record Issue : Type 0 where
  pub alias_name : Bytes
  pub field : Bytes
  pub severity : Severity
  pub message : Message

abbrev pub Issues : Type 0
Issues = List Issue

unfoldable pub is_error : Issue → Bool
is_error i = elim i.severity [ error ↦ true | warning ↦ false ]

-- `Issues.HasErrors`
unfoldable pub has_errors : Issues → Bool
has_errors is = any is_error is

-- `Issues.Errors`
unfoldable pub errors : Issues → Issues
errors is = keep is_error is

-- The closure `add` of `Alias`, at an error.
unfoldable pub add_error : Alias → String → Message → Issue
add_error a field message = record {
  alias_name = a.name;
  field = codes field;
  severity = error;
  message = message;
}

unfoldable pub name_issues : Alias → Shell → Issues
name_issues a sh = elim (check_name a.name sh) [
  | none ↦ []
  | some e ↦ add_error a "name" (name_error e) ∷ []
]

unfoldable pub command_issues : Alias → Issues
command_issues a = elim (check_command a.command) [
  | none ↦ []
  | some e ↦ add_error a "command" (text_error e) ∷ []
]

unfoldable pub description_issues : Alias → Issues
description_issues a = elim (check_description a.description) [
  | none ↦ []
  | some e ↦ add_error a "description" (text_error e) ∷ []
]

unfoldable pub platform_issues : Alias → List Platform → Issues
platform_issues a [] = []
platform_issues a (p ∷ ps) =
    let rest = platform_issues a ps in
    if not (platform_valid p) then add_error a "platforms" (unknown_platform p) ∷ rest else rest

unfoldable pub shell_issues : Alias → List Shell → Issues
shell_issues a [] = []
shell_issues a (s ∷ ss) =
    let rest = shell_issues a ss in
    if not (shell_valid s) then add_error a "shells" (unknown_shell s) ∷ rest else rest

-- `Alias`: the issues of one alias.
unfoldable pub alias_issues : Alias → Shell → Issues
alias_issues a sh =
    name_issues a sh
    ++ command_issues a
    ++ description_issues a
    ++ platform_issues a a.platforms
    ++ shell_issues a a.shells

-- `lower` is the table of `unicode.ToLower` beyond ASCII.
unfoldable pub duplicate_key : (ℕ → ℕ) → Bytes → Shell → Bytes
duplicate_key lower name sh = if same sh shell_powershell then to_lower lower name else name

-- An issue with no alias name.
unfoldable pub config_error : String → Message → Issue
config_error field message = record {
  alias_name = [];
  field = codes field;
  severity = error;
  message = message;
}

unfoldable pub device_issues : Device → Issues
device_issues d =
    (if not (platform_valid d.platform)
      then config_error "device.platform" (unknown_platform d.platform) ∷ []
      else [])
    ++ (if not (shell_valid d.shell)
        then config_error "device.shell" (unknown_shell d.shell) ∷ []
        else [])

unfoldable pub count_issues : List Alias → Issues
count_issues aliases =
    if ltb max_aliases (length aliases)
    then config_error "aliases" (too_many_aliases (length aliases)) ∷ []
    else []

module _ (lower : ℕ → ℕ) where
  -- The loop of `Config`, with the keys that it has seen.
  unfoldable pub loop_issues : Shell → List Bytes → List Alias → Issues
  loop_issues sh seen [] = []
  loop_issues sh seen (a ∷ aliases) =
      let key = duplicate_key lower a.name sh in
      alias_issues a sh
      ++ ((if contains_text seen key then add_error a "name" duplicate_name ∷ [] else [])
          ++ loop_issues sh (key ∷ seen) aliases)

  -- `Config`
  unfoldable pub config_issues : ResolvedConfig → Issues
  config_issues cfg =
      device_issues cfg.device
      ++ (count_issues cfg.aliases ++ loop_issues cfg.device.shell [] cfg.aliases)
