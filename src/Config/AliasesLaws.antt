-- ===== src/Config/AliasesLaws.antt =====
-- The aliases file round trip, and what parsing guarantees.
use aliasdeck.Prelude.{
  ◌≤◌, ◌≡◌, refl, sym, ap, ◌∙◌, inl, inr, Bool, true, false, not, List, [], ◌∷◌, none, some, length,
  All, ltb, if◌then◌else◌, arith,
}
use aliasdeck.Prelude.{Result, ok, Result-cases}
use mathlib.Core.List.{map}
use aliasdeck.Text.{Bytes}
use aliasdeck.Domain.Shell.{
  Platform, Shell, parse_platform, parse_shell, platform_valid, shell_valid,
}
use aliasdeck.Domain.Alias.{Alias}
use aliasdeck.Config.Aliases.{
  max_aliases_file_size, AliasesFileDto, AliasesDocument, parse_each, parse_platforms, parse_shells,
  enabled_or_default, to_domain, to_domain_all, from_domain, read_dto, parse_aliases, document_dto,
  marshal_aliases,
}

-- What the file keeps of an alias: an alias that has no more than that, with known targets.
pub record IsFileAlias (a : Alias) : Type 0 where
  pub id_is_name : a.id ≡ a.name
  pub platforms_ok : All (λ p. platform_valid p ≡ true) a.platforms
  pub shells_ok : All (λ s. shell_valid s ≡ true) a.shells
  pub no_devices : a.device_ids ≡ []
  pub no_creation : a.created_at ≡ 0
  pub no_update : a.updated_at ≡ 0

parse_platforms-valid :
    (ps : List Platform) → All (λ p. platform_valid p ≡ true) ps → parse_platforms ps ≡ ok ps
unfolding parse_platforms parse_each parse_platform
parse_platforms-valid [] h = refl
parse_platforms-valid (p ∷ ps) h = rw (parse_each, h.0, parse_platforms-valid ps h.1)

parse_shells-valid :
    (ss : List Shell) → All (λ s. shell_valid s ≡ true) ss → parse_shells ss ≡ ok ss
unfolding parse_shells parse_each parse_shell
parse_shells-valid [] h = refl
parse_shells-valid (s ∷ ss) h = rw (parse_each, h.0, parse_shells-valid ss h.1)

enabled-twice : (b : Bool) → enabled_or_default (if not b then some false else none) ≡ b
unfolding enabled_or_default
enabled-twice true = refl
enabled-twice false = refl

-- What is read back: the texts of the alias, with its name for its id.
abbrev rebuilt : Alias → Alias
rebuilt a = record a { id = a.name; device_ids = []; created_at = 0; updated_at = 0 }

to_domain-rebuilt :
    (a : Alias)
    → All (λ p. platform_valid p ≡ true) a.platforms
    → All (λ s. shell_valid s ≡ true) a.shells
    → to_domain (from_domain a) ≡ ok (rebuilt a)
unfolding to_domain from_domain
to_domain-rebuilt a p s = rw (
  to_domain,
  parse_platforms-valid a.platforms p,
  parse_shells-valid a.shells s,
  enabled-twice a.enabled,
)

rebuilt_id : (a : Alias) → IsFileAlias a → rebuilt a ≡ a
rebuilt_id a h = λ i. record a {
  id = sym h.id_is_name i;
  device_ids = sym h.no_devices i;
  created_at = sym h.no_creation i;
  updated_at = sym h.no_update i;
}

-- An alias that holds no more than the file keeps, with known platforms and shells, is read back from
-- its entry as it was.
pub to_domain-from_domain : (a : Alias) → IsFileAlias a → to_domain (from_domain a) ≡ ok a
to_domain-from_domain a h =
    to_domain-rebuilt a h.platforms_ok h.shells_ok ∙ ap (λ u. ok u) (rebuilt_id a h)

to_domain_all-from_domain :
    (aliases : List Alias)
    → All IsFileAlias aliases
    → to_domain_all (map from_domain aliases) ≡ ok aliases
unfolding to_domain_all
to_domain_all-from_domain [] h = refl
to_domain_all-from_domain (a ∷ aliases) h =
    rw (to_domain_all, to_domain-from_domain a h.0, to_domain_all-from_domain aliases h.1)

-- A document of such aliases that `MarshalAliases` writes, in at most the allowed size, `ParseAliases`
-- reads back as it was, if the YAML decoder reads what the encoder writes for this value.
pub parse_aliases-marshal_aliases :
    (encode_yaml : AliasesFileDto → Result Bytes Bytes)
    (decode_yaml : Bytes → Result Bytes AliasesFileDto) (doc : AliasesDocument) (bytes : Bytes)
    → (encode_yaml (document_dto doc) ≡ ok bytes → decode_yaml bytes ≡ ok (document_dto doc))
    → All IsFileAlias doc.aliases
    → marshal_aliases encode_yaml doc ≡ ok bytes
    → length bytes ≤ max_aliases_file_size
    → parse_aliases decode_yaml bytes ≡ ok doc
unfolding marshal_aliases parse_aliases read_dto document_dto
parse_aliases-marshal_aliases encode_yaml decode_yaml doc bytes reads h m size =
    elim (Result-cases (encode_yaml (document_dto doc))) [
      | inl (e, f) ↦ ground (arith, f)
      | inr (out, f) ↦
          let same_bytes : out ≡ bytes = ground (arith, f) in
          let read : decode_yaml bytes ≡ ok (document_dto doc) =
            reads (f ∙ ap (λ u. ok u) same_bytes) in
          let fits : ltb max_aliases_file_size (length bytes) ≡ false = ground arith in
          rw (fits, read, to_domain_all-from_domain doc.aliases h)
    ]
