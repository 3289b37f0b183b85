-- ===== src/Sandboxes.antt =====
-- internal/controller/toolsandbox_reconciler.go
pub mod Objects
pub mod Reconcile
mod Changed
mod Tests
