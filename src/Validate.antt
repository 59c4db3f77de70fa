-- ===== src/Validate.antt =====
-- internal/validate: what the program is willing to write into a shell's configuration.
pub mod Name
pub mod Command
pub mod Issues
pub mod Filter
pub mod NameLaws
pub mod CommandLaws
pub mod FilterLaws
pub mod Clean
pub mod Kept
