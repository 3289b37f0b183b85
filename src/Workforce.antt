-- ===== src/Workforce.antt =====
-- internal/controller/agenticworkforce_reconciler.go
pub mod Traverse
pub mod Reachable
pub mod Visits
pub mod Collect
pub mod Fuel
pub mod Sound
pub mod Reconcile
pub mod Watch
mod Tests
