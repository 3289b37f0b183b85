-- ===== src/Policies.antt =====
-- Policies: internal/controller/policy_reconciler.go
pub mod Validate
pub mod Enforced
mod Tests
