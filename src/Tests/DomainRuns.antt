-- ===== src/Tests/DomainRuns.antt =====
-- The theorems on the domain and on validation, at concrete inputs.
use aliasdeck.Prelude.{◌≡◌, ◌↔◌, true, false, [], ◌∷◌, none, In, arith}
use mathlib.Core.List.{map}
use aliasdeck.Text.{codes}
use aliasdeck.Domain.Shell.{shell_zsh}
use aliasdeck.Domain.Alias.{Alias, miss, applies_to}
use aliasdeck.Domain.Resolved.{sort_aliases, resolve, compute_revision, revision_input}
use aliasdeck.Domain.Targeting.{FirstMiss, miss-FirstMiss}
use aliasdeck.Domain.Sort.{IsSorted}
use aliasdeck.Domain.Resolution.{resolve_lem}
use aliasdeck.Domain.Revision.{content, revision_input_iff}
use aliasdeck.Validate.Name.{check_name}
use aliasdeck.Validate.Command.{check_command}
use aliasdeck.Validate.NameLaws.{IsValidName, check_name_iff}
use aliasdeck.Validate.CommandLaws.{IsValidCommand, check_command_iff}
use aliasdeck.Tests.Samples.{gs, ll, laptop, sample}

miss-FirstMiss_example :
    FirstMiss (record gs { enabled = false }) laptop (miss (record gs { enabled = false }) laptop)
miss-FirstMiss_example = miss-FirstMiss (record gs { enabled = false }) laptop

resolve_lem_example :
    let c = resolve (λ s. s) laptop (ll ∷ gs ∷ []) in
    IsSorted c.aliases
    × (c.revision ≡ compute_revision (λ s. s) c)
    × ((a : Alias) → In a c.aliases ↔ (In a (ll ∷ gs ∷ []) × (applies_to a laptop ≡ true)))
resolve_lem_example = resolve_lem (λ s. s) laptop (ll ∷ gs ∷ [])

revision_input_iff_example :
    (revision_input sample ≡ revision_input (record sample { revision = [] })) ↔ (
      (sample.device.platform ≡ sample.device.platform)
      × (sample.device.shell ≡ sample.device.shell)
      × (map content (sort_aliases sample.aliases) ≡ map content (sort_aliases sample.aliases)))
revision_input_iff_example =
    revision_input_iff sample (record sample { revision = [] })
      (omega arith, omega arith, omega arith) (omega arith, omega arith, omega arith)

check_name_iff_example :
    (check_name (codes "gs") shell_zsh ≡ none) ↔ IsValidName (codes "gs") shell_zsh
check_name_iff_example = check_name_iff (codes "gs") shell_zsh

check_command_iff_example :
    (check_command (codes "git status") ≡ none) ↔ IsValidCommand (codes "git status")
check_command_iff_example = check_command_iff (codes "git status")
