-- ===== src/CostTracker.antt =====
-- internal/ai/cost_tracker.go: what the queries of a day and of a user cost, and the budget limits.
pub mod State
pub mod Usage
pub mod Budget
pub mod Days
pub mod Alerts
pub mod Tests
