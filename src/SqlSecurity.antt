-- ===== src/SqlSecurity.antt =====
-- internal/service/sql_security.go: the validator that every SQL text passes before it is executed.
pub mod Config
pub mod Patterns
pub mod Statements
pub mod Quotes
pub mod Clean
pub mod QueryType
pub mod Checks
pub mod Tables
pub mod Risk
pub mod Validate
pub mod Verdict
pub mod Outcome
pub mod Hidden
pub mod Squeeze
pub mod Total
mod Tests
