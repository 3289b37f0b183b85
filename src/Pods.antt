-- ===== src/Pods.antt =====
-- What internal/controller puts into an agent's pod template.
pub mod Protocols
pub mod Env
pub mod Merged
pub mod Metadata
pub mod Labels
mod Tests
