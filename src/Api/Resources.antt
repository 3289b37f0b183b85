-- ===== src/Api/Resources.antt =====
-- api/v1alpha1: the other custom resources.
use ronak_agentk_runtime.Base.{Bool, ℕ, String, Option, List}
use ronak_agentk_runtime.Base.Int.{ℤ}
use ronak_agentk_runtime.Kube.{ObjectReference, EnvVar, ResourceRequirements}
use ronak_agentk_runtime.Api.Agent.{EmbeddedMetadata, Condition}

-- toolserver_types.go
pub record ToolServerSpec : Type 0 where
  pub protocol : String
  pub transport_type : String
  pub image : String
  pub image_pull_secrets : List String
  pub command : List String
  pub args : List String
  pub port : ℕ
  pub path : String
  pub replicas : Option ℕ
  pub env : List EnvVar
  pub env_from : List String
  pub resources : Option ResourceRequirements
  pub tool_gateway_ref : Option ObjectReference
  pub common_metadata : Option EmbeddedMetadata
  pub pod_metadata : Option EmbeddedMetadata

pub record ToolServerStatus : Type 0 where
  pub conditions : List Condition
  pub url : String
  pub gateway_url : String
  pub tool_gateway_ref : Option ObjectReference

pub record ToolServer : Type 0 where
  pub name : String
  pub namespace : String
  pub generation : ℤ
  pub spec : ToolServerSpec
  pub status : ToolServerStatus

-- swarm_types.go
pub record SwarmAgent : Type 0 where
  pub name : String
  pub agent_ref : Option ObjectReference
  pub url : String
  pub role : String

pub record SwarmSpec : Type 0 where
  pub strategy : String
  pub agents : List SwarmAgent
  pub max_concurrency : Option ℕ
  pub timeout_seconds : Option ℕ
  pub coordinator_image : String
  pub coordinator_port : ℤ
  pub replicas : Option ℕ
  pub common_metadata : Option EmbeddedMetadata

pub record Swarm : Type 0 where
  pub name : String
  pub namespace : String
  pub generation : ℤ
  pub spec : SwarmSpec

-- policy_types.go
pub record PolicyRule : Type 0 where
  pub name : String
  pub ebpf : Option String  -- the program of an EBPFRuleConfig
  pub opa : Option String  -- the Rego text of an OPARuleConfig

pub record Policy : Type 0 where
  pub name : String
  pub namespace : String
  pub generation : ℤ
  pub kind : String  -- `Type`
  pub enforcement : String
  pub rules : List PolicyRule

-- toolsandbox_types.go
pub record ToolSandbox : Type 0 where
  pub name : String
  pub namespace : String
  pub generation : ℤ
  pub runtime : String
  pub replicas : Option ℕ
  pub common_metadata : Option EmbeddedMetadata
  pub image : String
  pub memory_limit_mb : ℕ
  pub timeout_seconds : ℕ
  pub allowed_hosts : List String
  pub port : ℕ
  pub env : List EnvVar

-- agenticworkforce_types.go
pub record TransitiveAgent : Type 0 where
  pub name : String
  pub namespace : String
  pub url : String

pub record AgenticWorkforce : Type 0 where
  pub name : String
  pub namespace : String
  pub generation : ℤ
  -- a nil entry is `none`
  pub entry_point_agents : List (Option ObjectReference)
  pub conditions : List Condition
  pub transitive_agents : List TransitiveAgent
  pub transitive_tools : List String

pub record PolicyStatus : Type 0 where
  pub conditions : List Condition
  pub rule_count : ℤ
  pub enforced : Bool
