-- ===== src/SqlExecutor.antt =====
-- internal/service/sql_executor.go: a query that is run, and the rows that are kept of its result.
pub mod Values
pub mod Rows
pub mod Execute
pub mod Info
pub mod Longest
pub mod Limits
pub mod ReadOnly
pub mod Reported
mod Tests
