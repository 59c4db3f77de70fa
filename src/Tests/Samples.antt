-- ===== src/Tests/Samples.antt =====
-- Two aliases, a device and a configuration.
use aliasdeck.Prelude.{ℕ, true, [], ◌∷◌, none}
use aliasdeck.Text.{codes}
use aliasdeck.Domain.Shell.{shell_zsh, platform_macos}
use aliasdeck.Domain.Alias.{Alias, Device}
use aliasdeck.Domain.Resolved.{ResolvedConfig}

abbrev pub gs : Alias
gs = record {
  id = codes "gs";
  name = codes "gs";
  command = codes "git status";
  description = codes "short";
  enabled = true;
  tags = [];
  platforms = [];
  shells = [];
  profile_ids = [];
  device_ids = [];
  created_at = 0;
  updated_at = 0;
}

abbrev pub ll : Alias
ll = record gs {
  id = codes "ll";
  name = codes "ll";
  command = codes "ls 'a'";
  description = [];
  shells = shell_zsh ∷ [];
}

abbrev pub laptop : Device
laptop = record {
  id = codes "d1";
  name = codes "laptop";
  hostname = codes "host";
  platform = platform_macos;
  shell = shell_zsh;
  architecture = codes "arm64";
  profile_ids = [];
  last_seen_at = none;
  last_sync_at = none;
  client_version = [];
  revoked_at = none;
}

abbrev pub sample : ResolvedConfig
sample = record {
  revision = codes "abc";
  device = laptop;
  aliases = ll ∷ gs ∷ [];
  generated_at = 0;
}

-- An alias without a name.
abbrev pub nameless : Alias
nameless = record gs { name = [] }

-- The unchanged rune: for ASCII names `unicode.ToLower` is not asked.
abbrev pub same_rune : ℕ → ℕ
same_rune r = r
