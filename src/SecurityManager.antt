-- ===== src/SecurityManager.antt =====
-- functions/security-manager.js: the providers of keys, the sealing of fields, and the tokens that
-- stand for personal data.
pub mod Sealing
pub mod Providers
pub mod Creation
pub mod Patterns
pub mod Pii
