-- ===== src/Source.antt =====
-- internal/source: where a configuration comes from.
pub mod Url
pub mod Wire
pub mod WireLaws
pub mod Server
pub mod ServerLaws
pub mod File
pub mod Git
pub mod GitPath
pub mod GitLaws
