-- ===== src/Previews.antt =====
-- internal/controller/simulationpreview_reconciler.go: what an agent's deployment would look like,
-- without making it.
pub mod Build
pub mod Reconcile
mod Deployed
mod Counted
mod Images
mod Tests
