-- ===== src/Source/File.antt =====
-- internal/source/file.go: aliases of a local file. The file system and the YAML decoder are parameters.
use aliasdeck.Prelude.{ℕ}
use aliasdeck.Prelude.{Result, ok, err}
use aliasdeck.Text.{Bytes}
use aliasdeck.Domain.Alias.{Device}
use aliasdeck.Domain.Resolved.{ResolvedConfig, resolve}
use aliasdeck.Validate.Filter.{filter_valid}
use aliasdeck.Config.Aliases.{AliasesFileDto, ConfigError, parse_aliases}
use aliasdeck.Apply.Atomic.{Disk, OsError}

pub data FileError : Type 0 where
  reading : OsError → FileError
  parsing : ConfigError → FileError

-- The aliases of a file, for a device: the end of `FileSource.Resolve` and of `GitSource.Resolve`. `decode_yaml`
-- gives the document of a file, or an error.
unfoldable pub resolve_file :
    {W : Type 0}
    → (Bytes → Bytes)
    → (ℕ → ℕ)
    → (Bytes → Result Bytes AliasesFileDto)
    → Disk W
    → Bytes
    → Device
    → W
    → Result FileError ResolvedConfig
unfolding resolve filter_valid parse_aliases
resolve_file hash lower decode_yaml disk path dev w = elim (disk.read_file path w) [
  | err e ↦ err (reading e)
  | ok bytes ↦ elim (parse_aliases decode_yaml bytes) [
    | err e ↦ err (parsing e)
    | ok doc ↦ ok (filter_valid lower (resolve hash dev doc.aliases)).0
  ]
]
