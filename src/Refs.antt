-- ===== src/Refs.antt =====
-- internal/controller: references from one resource to another, how they are resolved, and the
-- watches that enqueue the referring agents.
pub mod Cluster
pub mod SubAgents
pub mod Tools
pub mod Gateways
pub mod Wakeups
pub mod Complete
pub mod Resolution
mod Tests
