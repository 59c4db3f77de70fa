-- ===== src/Config.antt =====
-- internal/config: the aliases file, paths and detection.
pub mod Aliases
pub mod AliasesLaws
pub mod Detect
pub mod Paths
