-- ===== src/Renderers.antt =====
-- internal/renderers: shell syntax for a resolved configuration.
pub mod Quote
pub mod Header
pub mod Posix
pub mod PowerShell
pub mod Render
pub mod Legacy
pub mod LegacyFile
pub mod LegacyLaws
pub mod QuoteLaws
pub mod PosixLines
pub mod OneLine
pub mod PosixOneLine
pub mod AfterFilter
pub mod Safety
pub mod NotLegacy
pub mod Unmarked
