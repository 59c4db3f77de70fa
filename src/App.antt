-- ===== src/App.antt =====
-- internal/app: the client's commands.
pub mod Sync
pub mod Prepared
pub mod SyncLaws
pub mod Again
