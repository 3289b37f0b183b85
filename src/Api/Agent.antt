-- ===== src/Api/Agent.antt =====
-- api/v1alpha1/agent_types.go and common_types.go
use ronak_agentk_runtime.Base.{ℕ, String, Bool, Option, List, Dict}
use ronak_agentk_runtime.Base.Int.{ℤ}
use ronak_agentk_runtime.Kube.{ObjectReference, EnvVar, VolumeMount, Volume, ResourceRequirements}

pub record EmbeddedMetadata : Type 0 where
  pub labels : Dict String
  pub annotations : Dict String

-- A2AProtocol
abbrev pub a2a_protocol : String
a2a_protocol = "A2A"

pub record AgentProtocol : Type 0 where
  pub name : String
  pub kind : String  -- `Type`
  pub port : ℕ
  pub path : String

pub record SubAgent : Type 0 where
  pub name : String
  pub agent_ref : Option ObjectReference
  pub url : String
  pub interaction_type : String

pub record AgentTool : Type 0 where
  pub name : String
  pub tool_server_ref : Option ObjectReference
  pub url : String
  pub propagated_headers : List String

pub record CostBudgetSpec : Type 0 where
  pub max_monthly_cost_usd : String
  pub downgrade_model : String
  pub cost_per_token_usd : String

pub record CostIntelligenceSpec : Type 0 where
  pub optimization_mode : String
  pub spot_instance_fallback : Bool
  pub suspend_on_budget_exhaust : Bool
  pub sampling_interval_seconds : ℕ

pub record VerifiableSpec : Type 0 where
  pub enabled : Bool
  pub proof_mode : String

pub record GovernanceSpec : Type 0 where
  pub autonomy_level : ℤ
  pub human_approval_webhook : String
  pub require_policy_compliance : Bool

pub record LifecycleSpec : Type 0 where
  pub strategy : String
  pub prompt_version : String
  pub checkpoint_on_update : Bool
  pub graceful_shutdown_seconds : ℕ
  pub self_healing : Bool
  pub max_surge : String
  pub max_unavailable : String

pub record AgentSpec : Type 0 where
  pub framework : String
  pub replicas : Option ℕ
  pub image : String
  pub description : String
  pub instruction : String
  pub model : String
  pub sub_agents : List SubAgent
  pub tools : List AgentTool
  pub protocols : List AgentProtocol
  pub ai_gateway_ref : Option ObjectReference
  pub env : List EnvVar
  pub env_from : List String
  pub volume_mounts : List VolumeMount
  pub volumes : List Volume
  pub resources : Option ResourceRequirements
  pub tool_sandbox_ref : Option ObjectReference
  pub policy_refs : List ObjectReference
  pub cost_budget : Option CostBudgetSpec
  pub cost_intelligence : Option CostIntelligenceSpec
  pub verifiable : Option VerifiableSpec
  pub governance : Option GovernanceSpec
  pub lifecycle : Option LifecycleSpec
  pub common_metadata : Option EmbeddedMetadata
  pub pod_metadata : Option EmbeddedMetadata

-- metav1.Condition; `status` is whether it is ConditionTrue
pub record Condition : Type 0 where
  pub kind : String  -- `Type`
  pub status : Bool
  pub reason : String
  pub message : String
  pub observed_generation : ℤ

pub record AgentStatus : Type 0 where
  pub conditions : List Condition
  pub url : String
  pub ai_gateway_ref : Option ObjectReference
  pub merkle_root : String
  pub checkpoint_count : ℤ
  pub last_checkpoint_time : Option String
  pub predicted_monthly_cost_usd : String
  pub cost_action : String
  pub tokens_used : ℤ
  pub zk_proof_root : String
  pub attestation_digest : String
  pub governance_status : String
  pub lifecycle_phase : String

pub record Agent : Type 0 where
  pub name : String
  pub namespace : String
  pub generation : ℤ
  pub spec : AgentSpec
  pub status : AgentStatus
