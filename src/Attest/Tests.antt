-- ===== src/Attest/Tests.antt =====
-- A run of the audit trail, with a hash that is plainly no hash: it maps every text to "d".
use ronak_agentk_runtime.Base.{ℕ, none, some, true, String, refl}
use ronak_agentk_runtime.Base.Int.{pos}
use ronak_agentk_runtime.Attest.Bars.{bar_free}
use ronak_agentk_runtime.Attest.Checkpoint.{Event}
use ronak_agentk_runtime.Attest.Proof.{Provers, ProofEngine, generate_step_proof}
use ronak_agentk_runtime.Attest.Engine.{IsHonest, generate_step_proof-IsHonest}
use ronak_agentk_runtime.Attest.Chain.{IsDigest}

abbrev constant : String → String
constant _ = "d"

constant-IsDigest : (s : String) → IsDigest (constant s)
unfolding bar_free
constant-IsDigest s = record { free = refl; full = refl }

abbrev event : String → Event
event spec = record { spec_json = spec; timestamp = "2025-01-01T00:00:00Z"; count = pos 1 }

-- A Groth16 prover that proves everything, and no PlonK prover.
abbrev proving : Provers
proving = record {
  Groth16 = ℕ;
  Plonk = ℕ;
  prove_groth16 = λ g prev text i.
      some (record { public_input_hash = "r"; proof_bytes = "p"; verified = true });
  prove_plonk = λ g prev text i. none;
}

abbrev warm : ProofEngine proving
warm = record { snark_prover = some 7; plonk_prover = none }

generate_step_proof-IsHonest_example :
    IsHonest constant proving "{}" ""
      (pos 1)
      (generate_step_proof constant proving (some 8) none warm "full-zk" "{}" "" (pos 1)).1
generate_step_proof-IsHonest_example =
    generate_step_proof-IsHonest constant proving "{}" "" (pos 1) (some 8) none warm "full-zk"
