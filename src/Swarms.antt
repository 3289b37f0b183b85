-- ===== src/Swarms.antt =====
-- Swarms: internal/swarm/coordinator.go and internal/controller/swarm_reconciler.go
pub mod Coordinator
pub mod Resolve
pub mod Watch
pub mod Objects
pub mod Reconcile
pub mod Routed
mod Tests
