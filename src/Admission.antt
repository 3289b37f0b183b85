-- ===== src/Admission.antt =====
-- The admission webhooks of internal/webhook/v1alpha1
pub mod Errors
pub mod Agents
pub mod Mounts
mod Prefixes
pub mod Servers
pub mod Swarms
pub mod Sources
pub mod Accepted
pub mod Defaults
mod Tests
