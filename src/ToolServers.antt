-- ===== src/ToolServers.antt =====
-- internal/controller/toolserver_reconciler.go and toolserver_toolgateway.go.
pub mod Gateways
pub mod Objects
pub mod Reconcile
mod Watch
mod Routed
mod Resolved
mod Failed
mod Tests
