-- ===== src/Reconcile.antt =====
-- The agent controller: internal/controller/agent_reconciler.go and agent_status.go
pub mod Config
pub mod Status
pub mod Step
pub mod Objects
pub mod Served
pub mod Gate
pub mod Trail
mod Tests
