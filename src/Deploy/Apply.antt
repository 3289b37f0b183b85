-- ===== src/Deploy/Apply.antt =====
-- ensureDeployment and ensureService of internal/controller/agent_reconciler.go, from what the Get of
-- the object gives to the object that is written or the error. json.Marshal and sort.Slice
-- are parameters.
use ronak_agentk_runtime.Base.{
  ℕ, String, false, Option, none, some, List, [], ◌∷◌, map, Dict, copy, Result, ok, err, Fetched,
  found, not_found, no_match, failed,
}
use Prim.Native.String.{◌++◌}
use ronak_agentk_runtime.Kube.{ObjectReference, EnvVar}
use ronak_agentk_runtime.Api.Agent.{Agent, AgentProtocol, EmbeddedMetadata}
use ronak_agentk_runtime.Api.Resources.{Policy, ToolSandbox}
use ronak_agentk_runtime.Refs.Cluster.{
  Cluster, AiGateway, get_namespace_with_default, target, show_key, or_error,
}
use ronak_agentk_runtime.Refs.SubAgents.{ResolvedSubAgent}
use ronak_agentk_runtime.Refs.Tools.{ResolvedTool}
use ronak_agentk_runtime.Refs.Gateways.{build_ai_gateway_service_url}
use ronak_agentk_runtime.Pods.Env.{merge_environment_variables}
use ronak_agentk_runtime.Pods.Metadata.{apply_common_metadata}
use ronak_agentk_runtime.Reconcile.Config.{
  AgentRuntimeConfiguration, resolve_effective_framework, get_template_image,
}
use ronak_agentk_runtime.Deploy.Template.{build_template_environment_vars}
use ronak_agentk_runtime.Deploy.Ensure.{AgentDeployment, Inputs, configure_deployment}

-- A nil reference resolves to nil.
unfoldable pub resolve_tool_sandbox :
    Cluster → Agent → Option ObjectReference → Result (Option ToolSandbox)
unfolding get_namespace_with_default
resolve_tool_sandbox c a none = ok none
resolve_tool_sandbox c a (some ref) =
    let key = target ref a.namespace in
    elim (or_error ("failed to resolve ToolSandbox " ++ show_key key ++ ": ")
      (c.get_tool_sandbox key)) [ ok sandbox ↦ ok (some sandbox) | err m ↦ err m ]

unfoldable pub resolve_policy : Cluster → Agent → ObjectReference → Result Policy
unfolding get_namespace_with_default
resolve_policy c a ref =
    let key = target ref a.namespace in
    or_error ("failed to resolve Policy " ++ show_key key ++ ": ") (c.get_policy key)

-- A sandbox that cannot be fetched is left out, and so is a policy.
abbrev pub or_nothing {ℓ} : {A : Type ℓ} → Result (Option A) → Option A
or_nothing (ok o) = o
or_nothing (err _) = none

unfoldable pub resolved_policies : Cluster → Agent → List ObjectReference → List Policy
unfolding resolve_policy
resolved_policies c a [] = []
resolved_policies c a (ref ∷ rest) = elim (resolve_policy c a ref) [
  | ok p ↦ p ∷ resolved_policies c a rest
  | err _ ↦ resolved_policies c a rest
]

abbrev pub url_of : Option AiGateway → Option String
url_of none = none
url_of (some g) = some (build_ai_gateway_service_url g)

-- The JSON encoders, sort.Slice by name, and the room of slices.
pub record Runtime : Type 0 where
  pub sort_slice : List EnvVar → List EnvVar
  pub marshal_programs : List String → String
  pub marshal_sub_agents : Dict ResolvedSubAgent → Result String
  pub marshal_tools : Dict ResolvedTool → Result String
  pub room : ℕ
  pub new_room : ℕ → ℕ

abbrev blank_metadata : EmbeddedMetadata
blank_metadata = record { labels = []; annotations = [] }

-- The object before it is fetched.
abbrev pub new_deployment : AgentDeployment
new_deployment = record {
  created = false;
  metadata = blank_metadata;
  selector = none;
  pod_labels = [];
  pod_annotations = [];
  replicas = none;
  containers = [];
  init_containers = [];
  volumes = [];
  strategy = none;
  termination_grace_period_seconds = none;
}

module _ (r : Runtime) (c : Cluster) (config : Option AgentRuntimeConfiguration) (a : Agent) where
  unfoldable pub inputs_of : List EnvVar → Inputs
  unfolding resolve_effective_framework get_template_image merge_environment_variables
      resolve_tool_sandbox resolved_policies
  inputs_of template_env =
      let framework = resolve_effective_framework a config in
      record {
        framework = framework;
        template_image = get_template_image framework config;
        env = merge_environment_variables r.sort_slice template_env a.spec.env;
        sandbox = or_nothing (resolve_tool_sandbox c a a.spec.tool_sandbox_ref);
        policies = resolved_policies c a a.spec.policy_refs;
      }

  -- The mutation, which fails if the environment cannot be built.
  abbrev pub with_template_env : ℕ → AgentDeployment → Result (List EnvVar) → Result AgentDeployment
  with_template_env room d (ok template_env) =
      ok (configure_deployment r.marshal_programs r.new_room room a (inputs_of template_env) d)
  with_template_env room d (err m) = err ("failed to build template environment variables: " ++ m)

  unfoldable pub mutate_deployment :
      Dict ResolvedSubAgent
      → Dict ResolvedTool
      → Option AiGateway
      → ℕ
      → AgentDeployment
      → Result AgentDeployment
  mutate_deployment subs tools gateway room d = with_template_env room d (
      build_template_environment_vars r.marshal_sub_agents r.marshal_tools a subs tools
        (url_of gateway))

  -- The literal of a new deployment has no room in its list of containers.
  unfoldable pub ensure_agent_deployment :
      Dict ResolvedSubAgent
      → Dict ResolvedTool
      → Option AiGateway
      → Fetched AgentDeployment
      → Result AgentDeployment
  ensure_agent_deployment subs tools gateway (found d) =
      mutate_deployment subs tools gateway r.room d
  ensure_agent_deployment subs tools gateway not_found =
      mutate_deployment subs tools gateway 0 new_deployment
  ensure_agent_deployment subs tools gateway no_match = err "no matches for kind"
  ensure_agent_deployment subs tools gateway (failed m) = err m

pub record AgentServicePort : Type 0 where
  pub name : String
  pub port : ℕ
  pub target_port : ℕ
  pub protocol : String

pub record AgentService : Type 0 where
  pub metadata : EmbeddedMetadata
  pub kind : String
  pub ports : List AgentServicePort
  pub selector : Dict String

abbrev pub new_service : AgentService
new_service = record { metadata = blank_metadata; kind = ""; ports = []; selector = [] }

-- What is done to the service; a deletion may fail in the API server.
pub data ServiceWrite : Type 0 where
  nothing deleted : ServiceWrite
  written : AgentService → ServiceWrite

unfoldable pub configure_service : Agent → AgentService → AgentService
unfolding apply_common_metadata copy
configure_service a s =
    let m = apply_common_metadata s.metadata a.spec.common_metadata in
    record {
      metadata = record m { labels = copy m.labels (("app", a.name) ∷ []) };
      kind = "ClusterIP";
      ports =
          map
            (λ (p : AgentProtocol). record {
              name = p.name;
              port = p.port;
              target_port = p.port;
              protocol = "TCP";
            })
            a.spec.protocols;
      selector = ("app", a.name) ∷ [];
    }

abbrev pub remove_service : Fetched AgentService → Result ServiceWrite
remove_service (found _) = ok deleted
remove_service not_found = ok nothing
remove_service no_match = err "failed to get Service: no matches for kind"
remove_service (failed m) = err ("failed to get Service: " ++ m)

abbrev pub write_service : Agent → Fetched AgentService → Result ServiceWrite
write_service a (found s) = ok (written (configure_service a s))
write_service a not_found = ok (written (configure_service a new_service))
write_service a no_match = err "no matches for kind"
write_service a (failed m) = err m

abbrev pub service_for : List AgentProtocol → Agent → Fetched AgentService → Result ServiceWrite
service_for [] a s = remove_service s
service_for (_ ∷ _) a s = write_service a s

unfoldable pub ensure_agent_service : Agent → Fetched AgentService → Result ServiceWrite
ensure_agent_service a s = service_for a.spec.protocols a s
