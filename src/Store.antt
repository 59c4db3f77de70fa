-- ===== src/Store.antt =====
-- internal/store: its errors, and its tables of tokens, operators and aliases.
pub mod Errors
pub mod Tokens
pub mod TokensLaws
pub mod Enrollment
pub mod Operators
pub mod Accounts
pub mod Revoked
pub mod Aliases
pub mod AliasesLaws
pub mod Links
