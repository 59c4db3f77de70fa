-- ===== src/Apply.antt =====
-- internal/apply: the block in a shell's startup file.
pub mod BootstrapLine
pub mod Content
pub mod ContentLaws
pub mod Atomic
pub mod Bootstrap
pub mod Native
