-- ===== src/ConnectionManager.antt =====
-- internal/service/connection_manager.go: the pools of connections to the databases of the users.
pub mod State
pub mod Pools
pub mod Changes
pub mod Runs
pub mod Limit
pub mod Steps
mod Tests
