-- ===== src/Deploy.antt =====
-- The containers and the environment that a deployment is made of: internal/ebpf/policy.go,
-- internal/wasm/wasm.go and internal/controller/agent_config.go
pub mod Policies
pub mod Sandbox
pub mod Template
pub mod Containers
pub mod Ensure
pub mod Found
pub mod Steps
pub mod Served
pub mod Routed
pub mod Sidecars
pub mod Healing
pub mod Moved
pub mod Apply
mod Names
mod Tests
