-- ===== src/Samples.antt =====
-- Concrete objects for the tests.
use ronak_agentk_runtime.Base.{
  ℕ, ◌+◌, ◌*◌, ◌/◌, String, false, none, some, List, [], ltb, leb, if◌then◌else◌, Fetched, found,
  not_found,
}
use ronak_agentk_runtime.Base.Int.{ℤ, pos, negsuc}
use ronak_agentk_runtime.Base.Float.{Float64}
use ronak_agentk_runtime.Kube.{NamespacedName}
use ronak_agentk_runtime.Api.Agent.{Agent, AgentSpec, AgentStatus, SubAgent, AgentTool}
use ronak_agentk_runtime.Api.Resources.{ToolServer, ToolServerSpec, ToolSandbox}
use ronak_agentk_runtime.Refs.Cluster.{Cluster, same_key}

abbrev pub no_status : AgentStatus
no_status = record {
  conditions = [];
  url = "";
  ai_gateway_ref = none;
  merkle_root = "";
  checkpoint_count = pos 0;
  last_checkpoint_time = none;
  predicted_monthly_cost_usd = "";
  cost_action = "";
  tokens_used = pos 0;
  zk_proof_root = "";
  attestation_digest = "";
  governance_status = "";
  lifecycle_phase = "";
}

abbrev pub plain_spec : List SubAgent → List AgentTool → AgentSpec
plain_spec subs tools = record {
  framework = "google-adk";
  replicas = some 1;
  image = "";
  description = "";
  instruction = "";
  model = "";
  sub_agents = subs;
  tools = tools;
  protocols = [];
  ai_gateway_ref = none;
  env = [];
  env_from = [];
  volume_mounts = [];
  volumes = [];
  resources = none;
  tool_sandbox_ref = none;
  policy_refs = [];
  cost_budget = none;
  cost_intelligence = none;
  verifiable = none;
  governance = none;
  lifecycle = none;
  common_metadata = none;
  pod_metadata = none;
}

-- An agent of the namespace "default" that is served at `url`.
abbrev pub plain_agent : String → String → List SubAgent → List AgentTool → Agent
plain_agent name url subs tools = record {
  name = name;
  namespace = "default";
  generation = pos 1;
  spec = plain_spec subs tools;
  status = record no_status { url = url };
}

abbrev pub in_default : String → NamespacedName
in_default name = record { name = name; namespace = "default" }

-- References with no namespace of their own.
abbrev pub cluster_sub : String → SubAgent
cluster_sub name = record {
  name = name;
  agent_ref = some (record { name = name; namespace = "" });
  url = "";
  interaction_type = "delegate";
}

abbrev pub remote_sub : SubAgent
remote_sub = record {
  name = "far";
  agent_ref = none;
  url = "https://far.example";
  interaction_type = "tool_call";
}

abbrev pub server_tool : String → AgentTool
server_tool name = record {
  name = name;
  tool_server_ref = some (record { name = name; namespace = "" });
  url = "";
  propagated_headers = [];
}

abbrev pub plain_server_spec : String → ℕ → String → ToolServerSpec
plain_server_spec transport port path = record {
  protocol = "mcp";
  transport_type = transport;
  image = "img";
  image_pull_secrets = [];
  command = [];
  args = [];
  port = port;
  path = path;
  replicas = none;
  env = [];
  env_from = [];
  resources = none;
  tool_gateway_ref = none;
  common_metadata = none;
  pod_metadata = none;
}

abbrev pub plain_server : String → ToolServer
plain_server url = record {
  name = "search";
  namespace = "default";
  generation = pos 1;
  spec = plain_server_spec "http" 8080 "/mcp";
  status = record { conditions = []; url = url; gateway_url = ""; tool_gateway_ref = none };
}

abbrev pub plain_sandbox : ℕ → ToolSandbox
plain_sandbox port = record {
  name = "box";
  namespace = "default";
  generation = pos 1;
  runtime = "wasmedge";
  replicas = none;
  common_metadata = none;
  image = "https://box.example/m.wasm";
  memory_limit_mb = 64;
  timeout_seconds = 10;
  allowed_hosts = [];
  port = port;
  env = [];
}

abbrev pub nothing {ℓ} : {A : Type ℓ} → NamespacedName → Fetched A
nothing _ = not_found

abbrev pub empty_cluster : Cluster
empty_cluster = record {
  get_agent = nothing;
  get_tool_server = nothing;
  get_ai_gateway = nothing;
  list_ai_gateways = λ _. found [];
  get_tool_sandbox = nothing;
  get_policy = nothing;
}

-- A client that knows one object of the namespace "default".
abbrev pub only {ℓ} : {A : Type ℓ} → String → A → NamespacedName → Fetched A
only name a k = if same_key k (in_default name) then found a else not_found

abbrev magnitude : ℤ → ℕ
magnitude (pos n) = n
magnitude (negsuc n) = 0

-- Non-negative numbers in tenths, whose products are rounded up.
abbrev pub tenths : Float64
tenths = record {
  Float = ℕ;
  of_int = λ z. 10 * magnitude z;
  mul = λ a b. (a * b + 9) / 10;
  div = λ a b. 10 * a / b;
  gt = λ a b. ltb b a;
  le = λ a b. leb a b;
  round = λ a. (a + 5) / 10 * 10;
  format_2 = λ a. "";
  parse = λ s. (0, false);
  nine_tenths = 9;
  eight_tenths = 8;
  seven_tenths = 7;
}
