-- ===== src/Tee.antt =====
-- internal/tee/attestation_verifier.go
pub mod Verifier
pub mod Attested
mod Tests
