-- ===== src/Execution.antt =====
-- internal/execution/engine.go: submissions become sandbox commands, and their results statuses.
pub mod Tokens
pub mod Aggregate
pub mod Machine
pub mod Judge
pub mod Paths
pub mod Archive
pub mod Engine
