-- ===== src/Governance/Tests.antt =====
-- Runs of policyengine.go.
use ronak_agentk_runtime.Base.{◌≡◌, ◌⊎◌, refl, true, false}
use ronak_agentk_runtime.Base.Int.{pos, le_int}
use ronak_agentk_runtime.Governance.{evaluate_governance}
use ronak_agentk_runtime.Governance.Decision.{IsViolation, evaluate_governance-status_cases}

level_two :
    (evaluate_governance (pos 2) 1 true true).reason ≡ "Autonomy level 2: human approval required"
unfolding evaluate_governance
level_two = refl

evaluate_governance-status_cases_example :
    let d = evaluate_governance (pos 3) 2 false true in
    (IsViolation (pos 3) 2 false true
      × (d.status ≡ "non-compliant")
      × (d.allowed ≡ false)
      × (d.requires_human_approval ≡ false))
    ⊎ ((¬ IsViolation (pos 3) 2 false true)
        × (d.status ≡ "pending-approval")
        × (d.allowed ≡ true)
        × (d.requires_human_approval ≡ true)
        × (le_int (pos 3) (pos 2) ≡ true))
    ⊎ ((¬ IsViolation (pos 3) 2 false true)
        × (d.status ≡ "compliant")
        × (d.allowed ≡ true)
        × (d.requires_human_approval ≡ false)
        × (le_int (pos 3) (pos 3) ≡ true))
evaluate_governance-status_cases_example = evaluate_governance-status_cases (pos 3) 2 false true
