-- ===== src/Config/Aliases.antt =====
-- internal/config/aliases.go: the aliases file. The YAML package is a parameter: `decode_yaml` and
-- `encode_yaml`.
use aliasdeck.Prelude.{
  ℕ, Bool, true, false, not, List, [], ◌∷◌, Option, none, some, length, keep, ltb, ◌==◌,
  if◌then◌else◌,
}
use aliasdeck.Prelude.{Result, ok, err}
use mathlib.Core.List.{map, flat_map}
use aliasdeck.Text.{Bytes, contains_text}
use aliasdeck.Domain.Shell.{Platform, Shell, parse_platform, parse_shell}
use aliasdeck.Domain.Alias.{Alias}

unfoldable pub max_aliases_file_size : ℕ
max_aliases_file_size = 0x100000

-- `aliasDTO`; the pointer `Enabled` is nil or a Boolean.
pub record AliasDto : Type 0 where
  pub name : Bytes
  pub command : Bytes
  pub description : Bytes
  pub enabled : Option Bool
  pub tags : List Bytes
  pub platforms : List Bytes
  pub shells : List Bytes
  pub profiles : List Bytes

pub record AliasesFileDto : Type 0 where
  pub version : ℕ
  pub profiles : List Bytes
  pub aliases : List AliasDto

pub record AliasesDocument : Type 0 where
  pub profiles : List Bytes
  pub aliases : List Alias

pub data ConfigError : Type 0 where
  too_large : ℕ → ConfigError
  malformed : Bytes → ConfigError
  unsupported_version : ℕ → ConfigError
  unknown_platform : Bytes → Bytes → ConfigError
  unknown_shell : Bytes → Bytes → ConfigError

-- A loop that stops at the first value that does not parse.
unfoldable pub parse_each : (Bytes → Result Bytes Bytes) → List Bytes → Result Bytes (List Bytes)
parse_each parse_one [] = ok []
parse_each parse_one (v ∷ values) =
    let rest = parse_each parse_one values in
    elim (parse_one v) [
      | err e ↦ err e
      | ok p ↦ elim rest [ err e ↦ err e | ok out ↦ ok (p ∷ out) ]
    ]

-- `parsePlatforms`
unfoldable pub parse_platforms : List Bytes → Result Bytes (List Platform)
unfolding parse_each parse_platform
parse_platforms values = parse_each parse_platform values

-- `parseShells`
unfoldable pub parse_shells : List Bytes → Result Bytes (List Shell)
unfolding parse_each parse_shell
parse_shells values = parse_each parse_shell values

-- `dto.Enabled == nil || *dto.Enabled`
unfoldable pub enabled_or_default : Option Bool → Bool
enabled_or_default none = true
enabled_or_default (some b) = b

-- `aliasDTO.toDomain`
unfoldable pub to_domain : AliasDto → Result ConfigError Alias
unfolding parse_platforms parse_shells enabled_or_default
to_domain dto = elim (parse_platforms dto.platforms) [
  | err v ↦ err (unknown_platform dto.name v)
  | ok platforms ↦ elim (parse_shells dto.shells) [
    | err v ↦ err (unknown_shell dto.name v)
    | ok shells ↦ ok (record {
      id = dto.name;
      name = dto.name;
      command = dto.command;
      description = dto.description;
      enabled = enabled_or_default dto.enabled;
      tags = dto.tags;
      platforms = platforms;
      shells = shells;
      profile_ids = dto.profiles;
      device_ids = [];
      created_at = 0;
      updated_at = 0;
    })
  ]
]

-- The loop of `ParseAliases`.
unfoldable pub to_domain_all : List AliasDto → Result ConfigError (List Alias)
to_domain_all [] = ok []
to_domain_all (dto ∷ dtos) =
    let rest = to_domain_all dtos in
    elim (to_domain dto) [
      | err e ↦ err e
      | ok a ↦ elim rest [ err e ↦ err e | ok aliases ↦ ok (a ∷ aliases) ]
    ]

-- `fromDomain`
unfoldable pub from_domain : Alias → AliasDto
from_domain a = record {
  name = a.name;
  command = a.command;
  description = a.description;
  enabled = if not a.enabled then some false else none;
  tags = a.tags;
  platforms = a.platforms;
  shells = a.shells;
  profiles = a.profile_ids;
}

-- One alias of `ProfileWarnings`: its name with each profile that is not declared.
unfoldable pub alias_warnings : List Bytes → Alias → List (Bytes × Bytes)
alias_warnings declared a =
    map (λ p. (a.name, p)) (keep (λ p. not (contains_text declared p)) a.profile_ids)

-- `ProfileWarnings`
unfoldable pub profile_warnings : List Bytes → List Alias → List (Bytes × Bytes)
unfolding alias_warnings
profile_warnings declared aliases = flat_map (alias_warnings declared) aliases

-- What `ParseAliases` does with a decoded file.
unfoldable pub read_dto : AliasesFileDto → Result ConfigError AliasesDocument
unfolding to_domain_all
read_dto dto =
    if not (dto.version == 1)
    then err (unsupported_version dto.version)
    else elim (to_domain_all dto.aliases) [
      | err e ↦ err e
      | ok aliases ↦ ok (record { profiles = dto.profiles; aliases = aliases })
    ]

-- `ParseAliases`
unfoldable pub parse_aliases :
    (Bytes → Result Bytes AliasesFileDto) → Bytes → Result ConfigError AliasesDocument
unfolding read_dto max_aliases_file_size
parse_aliases decode_yaml bytes =
    if ltb max_aliases_file_size (length bytes)
    then err (too_large (length bytes))
    else elim (decode_yaml bytes) [ err e ↦ err (malformed e) | ok dto ↦ read_dto dto ]

-- The value that `MarshalAliases` encodes.
unfoldable pub document_dto : AliasesDocument → AliasesFileDto
unfolding from_domain
document_dto doc = record {
  version = 1;
  profiles = doc.profiles;
  aliases = map from_domain doc.aliases;
}

-- `MarshalAliases`
unfoldable pub marshal_aliases :
    (AliasesFileDto → Result Bytes Bytes) → AliasesDocument → Result ConfigError Bytes
unfolding document_dto
marshal_aliases encode_yaml doc = elim (encode_yaml (document_dto doc)) [
  | err e ↦ err (malformed e)
  | ok bytes ↦ ok bytes
]
