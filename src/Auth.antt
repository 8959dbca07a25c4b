-- ===== src/Auth.antt =====
-- src/auth: accounts, sessions, e-mail tokens and Google sign-in.
pub mod Config
pub mod Models
pub mod Session
pub mod Utils
pub mod Schemas
pub mod Times
pub mod Accounts
pub mod Refresh
pub mod Sessions
pub mod Google
pub mod Mail
pub mod Http
pub mod Dependencies
pub mod Router
pub mod History
pub mod Tokens
