-- ===== src/Tests.antt =====
-- Sample data, and the theorems at concrete inputs.
mod Samples
mod DomainRuns
mod FileRuns
mod SupportRuns
mod StoreRuns
mod AuthRuns
mod RegisterRuns
mod SourceRuns
mod SyncRuns
