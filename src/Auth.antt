-- ===== src/Auth.antt =====
-- internal/auth: tokens, the middleware that checks them, and the operator's passwords.
pub mod Token
pub mod TokenLaws
pub mod Middleware
pub mod MiddlewareLaws
pub mod Password
pub mod Reset
pub mod ResetLaws
pub mod Setup
pub mod SetupLaws
