-- ===== src/Middleware.antt =====
-- internal/middleware: what runs before the handlers of a request.
pub mod Context
pub mod Guard
pub mod Roles
pub mod Limits
pub mod Metrics
pub mod Headers
pub mod Access
pub mod Buckets
pub mod Windows
mod Tests
