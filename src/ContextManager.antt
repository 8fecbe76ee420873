-- ===== src/ContextManager.antt =====
-- internal/ai/context_manager.go: what is remembered of users and databases for the next question.
pub mod State
pub mod Patterns
pub mod Schemas
pub mod History
pub mod Upkeep
pub mod Printing
pub mod Building
pub mod Runs
pub mod Memory
pub mod Bounds
pub mod Invariant
pub mod Recent
pub mod Cached
mod Tests
