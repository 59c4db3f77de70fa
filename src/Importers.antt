-- ===== src/Importers.antt =====
-- internal/importers: alias definitions read out of a shell's startup file.
pub mod Lexer
pub mod Statement
pub mod Posix
pub mod LexerLaws
pub mod ReadLine
pub mod Inert
pub mod RoundTrip
pub mod Termination
