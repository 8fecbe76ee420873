-- ===== src/HealthChecker.antt =====
-- internal/routing/health_checker.go: the health of the models, from checks of their APIs.
pub mod State
pub mod Errors
pub mod Check
pub mod Health
pub mod Begin
pub mod Queries
pub mod History
pub mod Results
pub mod Entries
pub mod Runs
pub mod Overlap
pub mod Metrics
pub mod Tests
