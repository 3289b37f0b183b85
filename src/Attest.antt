-- ===== src/Attest.antt =====
-- internal/merkle and internal/verifiable
pub mod Checkpoint
pub mod Proof
pub mod Bars
pub mod Chain
pub mod Engine
mod Tests
