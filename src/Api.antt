-- ===== src/Api.antt =====
-- internal/api: the server's side of a sync, the aliases, login and the registration of devices.
pub mod Errors
pub mod Sync
pub mod SyncLaws
pub mod RoundTrip
pub mod Aliases
pub mod AliasesLaws
pub mod Session
pub mod SessionLaws
pub mod Register
pub mod RegisterLaws
pub mod Enrollment
pub mod EnrollmentLaws
