-- ===== src/Attest/Proof.antt =====
-- internal/verifiable/zkproofs.go. SHA-256 and the two gnark provers are parameters.
use ronak_agentk_runtime.Base.{
  String, Bool, true, ◌||◌, Option, none, some, ◌==◌, is_empty, if◌then◌else◌,
}
use ronak_agentk_runtime.Base.Int.{ℤ, show_int}
use Prim.Native.String.{◌++◌}

abbrev pub merkle_only : String
merkle_only = "merkle-only"

-- The parts of SNARKProof and PlonKProof that the engine reads.
pub record SnarkProof : Type 0 where
  pub public_input_hash : String
  pub proof_bytes : String
  pub verified : Bool

-- The two provers: what they hold, and what GenerateProof gives (`none` is an error).
pub record Provers : Type 1 where
  pub Groth16 : Type 0
  pub Plonk : Type 0
  pub prove_groth16 : Groth16 → String → String → ℤ → Option SnarkProof
  pub prove_plonk : Plonk → String → String → ℤ → Option SnarkProof

pub record ProofResult : Type 0 where
  pub proof_root : String
  pub algorithm : String
  pub proof_bytes : String
  pub verified : Bool

module _ (hash_sha256 : String → String) where
  unfoldable pub compute_step_proof : String → String → ℤ → String
  unfolding show_int
  compute_step_proof step_data previous_proof step_index =
      hash_sha256 (previous_proof ++ "|" ++ step_data ++ "|" ++ show_int step_index)

  unfoldable pub compute_proof_chain_root : String → String → String
  compute_proof_chain_root previous_root new_step_proof =
      if is_empty previous_root
      then new_step_proof
      else hash_sha256 (previous_root ++ "|" ++ new_step_proof)

  unfoldable pub compute_attestation_digest : String → String → String → String
  compute_attestation_digest proof_root agent_name timestamp =
      hash_sha256 (proof_root ++ "|" ++ agent_name ++ "|" ++ timestamp)

  unfoldable pub generate_merkle_proof : String → String → ℤ → ProofResult
  unfolding compute_step_proof compute_proof_chain_root
  generate_merkle_proof step_data previous_proof step_index = record {
    proof_root =
        compute_proof_chain_root previous_proof
          (compute_step_proof step_data previous_proof step_index);
    algorithm = "SHA-256 (Merkle chain)";
    proof_bytes = "";
    verified = true;
  }

module _ (p : Provers) where
  open p use {Groth16, Plonk, prove_groth16, prove_plonk}

  -- The two provers that are initialised on first use.
  pub record ProofEngine : Type 0 where
    pub snark_prover : Option Groth16
    pub plonk_prover : Option Plonk

  -- getSNARKProver; the first argument is what NewSNARKProver gives if it is called
  unfoldable pub get_snark_prover : Option Groth16 → ProofEngine → ProofEngine × Option Groth16
  get_snark_prover fresh pe = elim pe.snark_prover [
    | some prover ↦ (pe, some prover)
    | none ↦ elim fresh [
      | none ↦ (pe, none)
      | some prover ↦ (record pe { snark_prover = some prover }, some prover)
    ]
  ]

  unfoldable pub get_plonk_prover : Option Plonk → ProofEngine → ProofEngine × Option Plonk
  get_plonk_prover fresh pe = elim pe.plonk_prover [
    | some prover ↦ (pe, some prover)
    | none ↦ elim fresh [
      | none ↦ (pe, none)
      | some prover ↦ (record pe { plonk_prover = some prover }, some prover)
    ]
  ]

abbrev pub is_snark : String → Bool
is_snark mode = mode == "snark-groth16" || mode == "full-zk" || mode == "sha3-attestation"

abbrev pub snark_algorithm : String
snark_algorithm = "Groth16-BN254 (zk-SNARK)"

abbrev pub plonk_algorithm : String
plonk_algorithm = "PlonK-BN254 (Universal SNARK — Premium)"

-- The proof of a prover, or the fallback where it has none.
abbrev pub or_fallback : String → ProofResult → Option SnarkProof → ProofResult
or_fallback algorithm fallback none = fallback
or_fallback algorithm fallback (some proof) = record {
  proof_root = proof.public_input_hash;
  algorithm = algorithm;
  proof_bytes = proof.proof_bytes;
  verified = proof.verified;
}

abbrev pub proof_of {ℓ} : {A : Type ℓ} → (A → Option SnarkProof) → Option A → Option SnarkProof
proof_of prove none = none
proof_of prove (some prover) = prove prover

module _ (hash_sha256 : String → String) (p : Provers) where
  open p use {Groth16, Plonk, prove_groth16, prove_plonk}

  -- GenerateStepProof, which never gives an error
  unfoldable pub generate_step_proof :
      Option Groth16
      → Option Plonk
      → ProofEngine p
      → String
      → String
      → String
      → ℤ
      → ProofEngine p × ProofResult
  unfolding generate_merkle_proof get_snark_prover get_plonk_prover
  generate_step_proof fresh_snark fresh_plonk pe mode step_data previous_proof step_index =
      let merkle = generate_merkle_proof hash_sha256 step_data previous_proof step_index in
      if is_snark mode
      then (let (pe', prover) = get_snark_prover p fresh_snark pe in
          (
            pe',
            or_fallback snark_algorithm merkle
                (proof_of (λ g. prove_groth16 g previous_proof step_data step_index) prover),
          ))
      else if mode == "plonk-universal"
      then (let (pe', prover) = get_plonk_prover p fresh_plonk pe in
          (
            pe',
            or_fallback plonk_algorithm merkle
                (proof_of (λ g. prove_plonk g previous_proof step_data step_index) prover),
          ))
      else (pe, merkle)
