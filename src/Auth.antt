-- ===== src/Auth.antt =====
-- internal/auth/jwt_service.go: signed tokens, and the store of what was revoked.
pub mod Library
pub mod Claims
pub mod Tokens
pub mod Keys
pub mod Revocation
pub mod Users
pub mod Marks
pub mod RoundTrip
pub mod Blacklist
pub mod Samples
pub mod Fixtures
mod Tests
