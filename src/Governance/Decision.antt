-- ===== src/Governance/Decision.antt =====
-- What the decision of policyengine.go depends on.
use ronak_agentk_runtime.Base.{ℕ, ◌<◌, ◌≡◌, ◌↔◌, ◌⊎◌, Bool, true, false, arith}
use ronak_agentk_runtime.Base.Int.{ℤ, pos, negsuc, le_int}
use ronak_agentk_runtime.Governance.{evaluate_governance}

-- What the doc comment says must hold for a deployment to be blocked.
pub record IsViolation (level : ℤ) (refs : ℕ) (compliant require : Bool) : Type 0 where
  pub gated : le_int level (pos 3) ≡ true
  pub required : require ≡ true
  pub governed : 0 < refs
  pub broken : compliant ≡ false

-- The governance decision denies a deployment exactly when the autonomy level is at most 3,
-- compliance is required, the agent has at least one policy and the policies are not compliant.
pub evaluate_governance-blocks_iff :
    (level : ℤ) (refs : ℕ) (compliant require : Bool)
    → ((evaluate_governance level refs compliant require).allowed ≡ false)
      ↔ IsViolation level refs compliant require
unfolding evaluate_governance
evaluate_governance-blocks_iff (pos n) refs compliant require =
    (λ h. ground arith, λ h. ground arith)
evaluate_governance-blocks_iff (negsuc n) refs compliant require =
    (λ h. ground arith, λ h. ground arith)

-- A governance decision is of one of three kinds: non-compliant, denied and without a request for
-- approval, where the level is at most 3, compliance is required, the agent has a policy and the
-- policies are not compliant; and where that is not so pending approval, allowed and with a
-- request for approval at a level of at most 2, or compliant, allowed and without a request for
-- approval at a level of at least 3.
pub evaluate_governance-status_cases :
    (level : ℤ) (refs : ℕ) (compliant require : Bool)
    → let d = evaluate_governance level refs compliant require in
      (IsViolation level refs compliant require
        × (d.status ≡ "non-compliant")
        × (d.allowed ≡ false)
        × (d.requires_human_approval ≡ false))
      ⊎ ((¬ IsViolation level refs compliant require)
          × (d.status ≡ "pending-approval")
          × (d.allowed ≡ true)
          × (d.requires_human_approval ≡ true)
          × (le_int level (pos 2) ≡ true))
      ⊎ ((¬ IsViolation level refs compliant require)
          × (d.status ≡ "compliant")
          × (d.allowed ≡ true)
          × (d.requires_human_approval ≡ false)
          × (le_int (pos 3) level ≡ true))
unfolding evaluate_governance
evaluate_governance-status_cases (pos n) refs compliant require = ground arith
evaluate_governance-status_cases (negsuc n) refs compliant require = ground arith

-- A higher autonomy level never denies what a lower one allows, all else equal.
pub evaluate_governance-allowed_mono :
    (a b : ℤ) (refs : ℕ) (compliant require : Bool)
    → le_int a b ≡ true
    → (evaluate_governance a refs compliant require).allowed ≡ true
    → (evaluate_governance b refs compliant require).allowed ≡ true
unfolding evaluate_governance
evaluate_governance-allowed_mono (pos a) (pos b) refs compliant require h k = ground arith
evaluate_governance-allowed_mono (pos a) (negsuc b) refs compliant require h k = ground arith
evaluate_governance-allowed_mono (negsuc a) (pos b) refs compliant require h k = ground arith
evaluate_governance-allowed_mono (negsuc a) (negsuc b) refs compliant require h k = ground arith
