-- ===== src/Core.antt =====
-- src/core: what the features share.
pub mod Encryption
pub mod Security
pub mod RateLimit
pub mod Middleware
pub mod Config
