-- ===== src/Attest/Engine.antt =====
-- What zkproofs.go's engine hands out, and what it keeps.
use ronak_agentk_runtime.Base.{
  String, true, is_empty, if◌then◌else◌, Option, none, some, ◌≡◌, ◌⊎◌, inl, inr, refl, Bool-cases,
  ◌==◌, Option-cases,
}
use ronak_agentk_runtime.Base.Int.{ℤ, show_int}
use Prim.Native.String.{◌++◌}
use ronak_agentk_runtime.Attest.Proof.{
  SnarkProof, Provers, ProofResult, ProofEngine, generate_merkle_proof, get_snark_prover,
  get_plonk_prover, generate_step_proof, or_fallback, proof_of, snark_algorithm, plonk_algorithm,
  is_snark, compute_proof_chain_root, compute_step_proof,
}

module _ (hash : String → String) (p : Provers) (step_data previous : String) (index : ℤ) where
  open p use {Groth16, Plonk, prove_groth16, prove_plonk}

  -- A proof that a prover made of the step.
  pub data IsProved (r : ProofResult) : Type 0 where
    groth16 :
        (g : Groth16) (proof : SnarkProof)
        → prove_groth16 g previous step_data index ≡ some proof
        → r.proof_root ≡ proof.public_input_hash
        → r.verified ≡ proof.verified
        → r.algorithm ≡ snark_algorithm
        → IsProved r
    plonk :
        (k : Plonk) (proof : SnarkProof)
        → prove_plonk k previous step_data index ≡ some proof
        → r.proof_root ≡ proof.public_input_hash
        → r.verified ≡ proof.verified
        → r.algorithm ≡ plonk_algorithm
        → IsProved r

  -- The digest of the step, and the chain's next root: that digest for the first step, else the
  -- digest of the root before and it.
  abbrev step_digest : String
  step_digest = hash (previous ++ "|" ++ step_data ++ "|" ++ show_int index)

  abbrev next_root : String
  next_root = if is_empty previous then step_digest else hash (previous ++ "|" ++ step_digest)

  pub record IsChained (r : ProofResult) : Type 0 where
    pub root : r.proof_root ≡ next_root
    pub name : r.algorithm ≡ "SHA-256 (Merkle chain)"
    pub marked : r.verified ≡ true

  abbrev pub IsHonest : ProofResult → Type 0
  IsHonest r = IsChained r ⊎ IsProved r

  merkle-IsChained : IsChained (generate_merkle_proof hash step_data previous index)
  unfolding generate_merkle_proof compute_proof_chain_root compute_step_proof show_int
  merkle-IsChained = record { root = refl; name = refl; marked = refl }

  snark-IsHonest :
      (prover : Option Groth16)
      → IsHonest (
          or_fallback snark_algorithm
            (generate_merkle_proof hash step_data previous index)
            (proof_of (λ g. prove_groth16 g previous step_data index) prover))
  snark-IsHonest none = inl merkle-IsChained
  snark-IsHonest (some g) = elim (Option-cases (prove_groth16 g previous step_data index)) [
    | inl e ↦ rw e (inl merkle-IsChained)
    | inr (proof, e) ↦ rw e (inr (groth16 g proof e refl refl refl))
  ]

  plonk-IsHonest :
      (prover : Option Plonk)
      → IsHonest (
          or_fallback plonk_algorithm
            (generate_merkle_proof hash step_data previous index)
            (proof_of (λ k. prove_plonk k previous step_data index) prover))
  plonk-IsHonest none = inl merkle-IsChained
  plonk-IsHonest (some k) = elim (Option-cases (prove_plonk k previous step_data index)) [
    | inl e ↦ rw e (inl merkle-IsChained)
    | inr (proof, e) ↦ rw e (inr (plonk k proof e refl refl refl))
  ]

  module _ (fresh_snark : Option Groth16) (fresh_plonk : Option Plonk) (pe : ProofEngine p)
      (mode : String) where
    -- In every proof mode, and whichever prover fails to start or to prove, the result of the
    -- proof engine has the next root of the SHA-256 chain, which is the step's digest for the
    -- first step and else the digest of the root before and the step's digest, and is named
    -- "SHA-256 (Merkle chain)" and marked verified; or it carries the public input hash and the
    -- verdict of a proof that a prover made of this very step, under that prover's algorithm.
    pub generate_step_proof-IsHonest :
        IsHonest
          (generate_step_proof hash p fresh_snark fresh_plonk pe mode step_data previous index).1
    unfolding generate_step_proof
    generate_step_proof-IsHonest = elim (Bool-cases (is_snark mode)) [
      | inl s ↦ rw s (snark-IsHonest _)
      | inr n ↦ elim (Bool-cases (mode == "plonk-universal")) [
        | inl k ↦ rw (n, k) (plonk-IsHonest _)
        | inr m ↦ rw (n, m) (inl merkle-IsChained)
      ]
    ]

    snark_kept :
        (g : Groth16)
        → pe.snark_prover ≡ some g
        → (get_snark_prover p fresh_snark pe).0.snark_prover ≡ some g
    unfolding get_snark_prover
    snark_kept g e = rw (e, get_snark_prover) e

    plonk_left :
        (g : Groth16)
        → pe.snark_prover ≡ some g
        → (get_plonk_prover p fresh_plonk pe).0.snark_prover ≡ some g
    unfolding get_plonk_prover
    plonk_left g e = elim (Option-cases pe.plonk_prover) [
      | inr (k, h) ↦ rw (h, get_plonk_prover) e
      | inl h ↦ elim (Option-cases fresh_plonk) [
        | inl n ↦ rw (h, n, get_plonk_prover) e
        | inr (k, n) ↦ rw (h, n, get_plonk_prover) e
      ]
    ]

    -- Once the proof engine holds a Groth16 prover, it holds the same one after any further call,
    -- in any mode and whatever a new setup would give: the trusted setup is done once.
    pub generate_step_proof-snark_prover :
        (g : Groth16)
        → pe.snark_prover ≡ some g
        → (generate_step_proof hash p fresh_snark fresh_plonk pe mode step_data previous
            index).0.snark_prover
          ≡ some g
    unfolding generate_step_proof
    generate_step_proof-snark_prover g e = elim (Bool-cases (is_snark mode)) [
      | inl s ↦ rw s (snark_kept g e)
      | inr n ↦ elim (Bool-cases (mode == "plonk-universal")) [
        | inl k ↦ rw (n, k) (plonk_left g e)
        | inr m ↦ rw (n, m) e
      ]
    ]
