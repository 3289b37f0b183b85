-- ===== src/Governance.antt =====
-- internal/governance/policyengine.go
pub mod Decision
mod Tests
use ronak_agentk_runtime.Base.{
  ℕ, String, Bool, true, false, not, ◌&&◌, List, [], ◌∷◌, Dict, insert, non_empty, ltb,
  if◌then◌else◌,
}
use ronak_agentk_runtime.Base.Int.{ℤ, pos, le_int, eq_int, show_int}
use Prim.Native.String.{◌++◌}

pub record GovernanceDecision : Type 0 where
  pub status : String
  pub allowed : Bool
  pub requires_human_approval : Bool
  pub reason : String

abbrev pub status_compliant : String
status_compliant = "compliant"

abbrev pub status_pending_approval : String
status_pending_approval = "pending-approval"

abbrev pub status_non_compliant : String
status_non_compliant = "non-compliant"

-- fmt.Sprintf("Autonomy level %d: …", level)
at_level : ℤ → String → String
unfolding show_int
at_level level rest = "Autonomy level " ++ show_int level ++ rest

-- A struct literal leaves `RequiresHumanApproval` false.
abbrev decision : String → Bool → Bool → String → GovernanceDecision
decision status allowed approval reason = record {
  status = status;
  allowed = allowed;
  requires_human_approval = approval;
  reason = reason;
}

unfoldable pub evaluate_governance : ℤ → ℕ → Bool → Bool → GovernanceDecision
unfolding at_level
evaluate_governance autonomy_level policy_ref_count policy_compliant require_compliance =
    if le_int (pos 4) autonomy_level
    then decision status_compliant true false
        (at_level autonomy_level ": fully autonomous, advisory policies only")
    else if eq_int autonomy_level (pos 3)
    then (if require_compliance && (ltb 0 policy_ref_count && not policy_compliant)
        then decision status_non_compliant false false
            "Autonomy level 3: policy compliance required but policies are not compliant"
        else decision status_compliant true false "Autonomy level 3: policies compliant")
    else if require_compliance && (ltb 0 policy_ref_count && not policy_compliant)
    then decision status_non_compliant false false
        (at_level autonomy_level ": policy compliance required but policies are not compliant")
    else decision status_pending_approval true true
        (at_level autonomy_level ": human approval required")

unfoldable pub build_governance_annotations : ℤ → String → String → Dict String
unfolding show_int
build_governance_annotations autonomy_level status human_webhook =
    let annotations : Dict String =
      ("agentk.io/autonomy-level", show_int autonomy_level)
      ∷ ("agentk.io/governance-status", status)
      ∷ [] in
    if non_empty human_webhook
    then insert "agentk.io/human-approval-webhook" human_webhook annotations
    else annotations
