-- ===== src/Previews/Build.antt =====
-- buildPreviewDeployment of internal/controller/simulationpreview_reconciler.go.
use ronak_agentk_runtime.Base.{
  ℕ, String, Option, none, some, List, [], ◌∷◌, ◌++◌, map, Dict, ◌==◌, is_empty, if◌then◌else◌,
}
use Prim.Native.String
use ronak_agentk_runtime.Kube.{Container, Volume, ObjectReference}
use ronak_agentk_runtime.Api.Agent.{Agent, AgentProtocol, CostBudgetSpec}
use ronak_agentk_runtime.Deploy.Ensure.{agent_container_name, new_container}

pub record PreviewDeployment : Type 0 where
  pub name : String
  pub namespace : String
  pub labels : Dict String
  pub replicas : ℕ
  pub selector : Dict String
  pub pod_labels : Dict String
  pub containers : List Container
  pub init_containers : List Container
  pub volumes : List Volume

abbrev template_image_adk : String
template_image_adk = "ghcr.io/agentic-layer/agent-template-adk:0.8.0"

abbrev template_image_msaf : String
template_image_msaf = "ghcr.io/agentic-layer/agent-template-msaf:0.1.0"

unfoldable pub image_of_framework : String → String
image_of_framework framework =
    if framework == "google-adk"
    then template_image_adk
    else if framework == "msaf"
    then template_image_msaf
    else template_image_adk

unfoldable pub preview_image : Agent → String
unfolding image_of_framework
preview_image a =
    if is_empty a.spec.image then image_of_framework a.spec.framework else a.spec.image

abbrev image_warnings : Agent → List String
image_warnings a =
    if is_empty a.spec.image
    then String.◌++◌ "No custom image specified, using template image: " (preview_image a) ∷ []
    else []

abbrev protocol_warnings : List AgentProtocol → List String
protocol_warnings [] = "No protocols defined — agent will not have a Service" ∷ []
protocol_warnings (_ ∷ _) = []

unfoldable pub agent_container : Agent → Container
unfolding preview_image
agent_container a = record (new_container agent_container_name) {
  image = preview_image a;
  ports =
      map
        (λ (p : AgentProtocol). record { name = p.name; container_port = p.port; protocol = "TCP" })
        a.spec.protocols;
  env = a.spec.env;
  resources = record {
    requests = ("memory", "300Mi") ∷ ("cpu", "100m") ∷ [];
    limits = ("memory", "500Mi") ∷ ("cpu", "500m") ∷ [];
  };
}

abbrev named_image : String → String → Container
named_image name image = record (new_container name) { image = image }

unfoldable pub sandbox_containers : Option ObjectReference → List Container
sandbox_containers none = []
sandbox_containers (some _) = named_image "wasm-sandbox" "wasmedge/wasmedge:0.14.1" ∷ []

abbrev sandbox_warnings : Option ObjectReference → List String
sandbox_warnings none = []
sandbox_warnings (some ref) =
    String.◌++◌ "ToolSandbox sidecar will be injected (ref: " (String.◌++◌ ref.name ")") ∷ []

-- The loop over the policies: two containers and a warning for each reference.
unfoldable pub policy_containers : List ObjectReference → List Container
policy_containers [] = []
policy_containers (_ ∷ rest) =
    named_image "opa-policy" "openpolicyagent/opa:1.4.2-static" ∷ policy_containers rest

unfoldable pub probe_containers : List ObjectReference → List Container
probe_containers [] = []
probe_containers (_ ∷ rest) =
    named_image "ebpf-probe" "cilium/cilium:v1.17.3" ∷ probe_containers rest

abbrev policy_warnings : List ObjectReference → List String
policy_warnings [] = []
policy_warnings (ref ∷ rest) =
    String.◌++◌ "Policy enforcement sidecars will be injected (ref: " (String.◌++◌ ref.name ")")
    ∷ policy_warnings rest

abbrev budget_warnings : Option CostBudgetSpec → List String
budget_warnings none = []
budget_warnings (some b) =
    String.◌++◌ "Cost budget configured: max $" (
      String.◌++◌ b.max_monthly_cost_usd
        (String.◌++◌ "/month, downgrade model: " b.downgrade_model))
    ∷ []

abbrev replicas_or_one : Option ℕ → ℕ
replicas_or_one none = 1
replicas_or_one (some n) = n

unfoldable pub preview_warnings : Agent → List String
unfolding preview_image
preview_warnings a =
    image_warnings a
    ++ protocol_warnings a.spec.protocols
    ++ sandbox_warnings a.spec.tool_sandbox_ref
    ++ policy_warnings a.spec.policy_refs
    ++ budget_warnings a.spec.cost_budget

unfoldable pub build_preview_deployment : Agent → PreviewDeployment × List String
unfolding agent_container sandbox_containers policy_containers probe_containers preview_warnings
build_preview_deployment a =
    let app : Dict String = ("app", a.name) ∷ [] in
    (
      record {
        name = a.name;
        namespace = a.namespace;
        labels = app;
        replicas = replicas_or_one a.spec.replicas;
        selector = app;
        pod_labels = app;
        containers =
            agent_container a
            ∷ (sandbox_containers a.spec.tool_sandbox_ref ++ policy_containers a.spec.policy_refs);
        init_containers = probe_containers a.spec.policy_refs;
        volumes = a.spec.volumes;
      },
      preview_warnings a,
    )
