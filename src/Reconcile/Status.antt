-- ===== src/Reconcile/Status.antt =====
-- internal/controller/agent_status.go. meta.SetStatusCondition is a parameter; each function gives
-- the status that is handed to Status().Update.
use ronak_agentk_runtime.Base.{String, Bool, true, false, Option, none, some, List}
use ronak_agentk_runtime.Base.Int.{ℤ}
use ronak_agentk_runtime.Kube.{ObjectReference}
use ronak_agentk_runtime.Api.Agent.{Agent, AgentStatus, Condition}
use ronak_agentk_runtime.Refs.Cluster.{AiGateway}
use ronak_agentk_runtime.Cost.Predictor.{CostPrediction}
use ronak_agentk_runtime.Pods.Protocols.{build_a2a_agent_card_url}

abbrev pub gateway_ref : Option AiGateway → Option ObjectReference
gateway_ref none = none
gateway_ref (some g) = some (record { name = g.name; namespace = g.namespace })

abbrev pub condition : Agent → Bool → String → String → Condition
condition a status reason message = record {
  kind = "Ready";
  status = status;
  reason = reason;
  message = message;
  observed_generation = a.generation;
}

-- What a reconciliation has computed for the status.
pub record Computed : Type 0 where
  pub ai_gateway : Option AiGateway
  pub merkle_root : String
  pub checkpoint_count : ℤ
  pub checkpoint_time : String
  pub cost_prediction : Option CostPrediction
  pub zk_proof_root : String
  pub attestation_digest : String
  pub governance_status : String
  pub lifecycle_phase : String

abbrev with_prediction : Option CostPrediction → AgentStatus → AgentStatus
with_prediction none s = s
with_prediction (some p) s = record s {
  predicted_monthly_cost_usd = p.predicted_monthly_cost_usd;
  cost_action = p.action;
}

module _ (set_status_condition : List Condition → Condition → List Condition) where
  unfoldable pub update_agent_status_ready : Agent → Computed → AgentStatus
  update_agent_status_ready a v =
      let s = with_prediction v.cost_prediction a.status in
      record s {
        conditions =
            set_status_condition s.conditions (condition a true "Reconciled" "Agent is ready");
        url = build_a2a_agent_card_url a;
        ai_gateway_ref = gateway_ref v.ai_gateway;
        merkle_root = v.merkle_root;
        checkpoint_count = v.checkpoint_count;
        last_checkpoint_time = some v.checkpoint_time;
        zk_proof_root = v.zk_proof_root;
        attestation_digest = v.attestation_digest;
        governance_status = v.governance_status;
        lifecycle_phase = v.lifecycle_phase;
      }

  unfoldable pub update_agent_status_not_ready : Agent → String → String → AgentStatus
  update_agent_status_not_ready a reason message =
      let s = a.status in
      record s {
        conditions = set_status_condition s.conditions (condition a false reason message);
        url = "";
        ai_gateway_ref = none;
      }

  unfoldable pub update_agent_status_blocked : Agent → String → String → String → AgentStatus
  unfolding update_agent_status_not_ready
  update_agent_status_blocked a reason message governance_status =
      let s = update_agent_status_not_ready a reason message in
      record s { governance_status = governance_status }
