-- ===== src/Domain.antt =====
-- internal/domain: the entities that the client and the server share.
pub mod Shell
pub mod Alias
pub mod Sort
pub mod Resolved
pub mod Targeting
pub mod Resolution
pub mod Revision
