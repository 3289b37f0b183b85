-- ===== src/Deploy/Ensure.antt =====
-- ensureDeployment of internal/controller/agent_reconciler.go: the mutation that
-- controllerutil.CreateOrUpdate is given, without the owner reference. The room of slices is the Go
-- runtime's: `room` is that of the fetched containers, `new_room` that of a new array.
use ronak_agentk_runtime.Base.{
  ℕ, String, Bool, true, false, Option, none, some, List, [], ◌∷◌, ◌++◌, map, length, Dict, copy,
  non_empty, if◌then◌else◌, ◌==◌, any,
}
use ronak_agentk_runtime.Kube.{
  Container, ContainerPort, EnvVar, Volume, DeploymentStrategy, ResourceRequirements,
}
use ronak_agentk_runtime.Api.Agent.{
  Agent, AgentProtocol, EmbeddedMetadata, LifecycleSpec, GovernanceSpec, CostIntelligenceSpec,
}
use ronak_agentk_runtime.Api.Resources.{Policy, ToolSandbox}
use ronak_agentk_runtime.Governance.{evaluate_governance, build_governance_annotations}
use ronak_agentk_runtime.Lifecycle.{
  configure_deployment_strategy, build_lifecycle_annotations, configure_self_healing,
}
use ronak_agentk_runtime.Cost.RealTime.{build_spot_annotations}
use ronak_agentk_runtime.Pods.Protocols.{generate_readiness_probe}
use ronak_agentk_runtime.Pods.Metadata.{apply_common_metadata, build_pod_template_metadata}
use ronak_agentk_runtime.Deploy.Policies.{
  build_opa_sidecar, build_ebpf_init_container, has_opa_rules, has_ebpf_rules,
}
use ronak_agentk_runtime.Deploy.Sandbox.{build_sidecar_container}
use ronak_agentk_runtime.Deploy.Containers.{Slice, append, find_container_by_name, write_container}

pub record AgentDeployment : Type 0 where
  pub created : Bool  -- whether CreationTimestamp is set
  pub metadata : EmbeddedMetadata
  pub selector : Option (Dict String)
  pub pod_labels : Dict String
  pub pod_annotations : Dict String
  pub replicas : Option ℕ
  pub containers : List Container
  pub init_containers : List Container
  pub volumes : List Volume
  pub strategy : Option DeploymentStrategy
  pub termination_grace_period_seconds : Option ℕ

-- What the controller has found out before: the image of the agent's framework, the merged
-- environment, the sandbox and the policies that could be fetched.
pub record Inputs : Type 0 where
  pub framework : String
  pub template_image : String
  pub env : List EnvVar
  pub sandbox : Option ToolSandbox
  pub policies : List Policy

abbrev pub agent_container_name : String
agent_container_name = "agent"

abbrev default_resources : ResourceRequirements
default_resources = record {
  requests = ("memory", "300Mi") ∷ ("cpu", "100m") ∷ [];
  limits = ("memory", "500Mi") ∷ ("cpu", "500m") ∷ [];
}

abbrev or_default_resources : Option ResourceRequirements → ResourceRequirements
or_default_resources none = default_resources
or_default_resources (some r) = r

unfoldable pub get_or_default_resource_requirements : Agent → ResourceRequirements
get_or_default_resource_requirements a = or_default_resources a.spec.resources

unfoldable pub container_ports : Agent → List ContainerPort
container_ports a =
    map (λ (p : AgentProtocol). record { name = p.name; container_port = p.port; protocol = "TCP" })
      a.spec.protocols

abbrev pub new_container : String → Container
new_container name = record {
  name = name;
  image = "";
  command = [];
  args = [];
  ports = [];
  env = [];
  env_from = [];
  volume_mounts = [];
  resources = record { requests = []; limits = [] };
  readiness_probe = none;
  liveness_probe = none;
  privileged = none;
}

-- The fields of the agent's container.
unfoldable pub configure_container : Agent → Inputs → Container → Container
unfolding container_ports generate_readiness_probe get_or_default_resource_requirements
configure_container a i c = record c {
  image = if non_empty a.spec.image then a.spec.image else i.template_image;
  ports = container_ports a;
  env = i.env;
  env_from = a.spec.env_from;
  volume_mounts = a.spec.volume_mounts;
  readiness_probe = generate_readiness_probe a;
  resources = get_or_default_resource_requirements a;
}

-- What an existing sandbox container takes from the built one.
unfoldable pub refresh_sandbox : Container → Container → Container
refresh_sandbox built c = record c {
  image = built.image;
  ports = built.ports;
  env = built.env;
  resources = built.resources;
}

module _ (new_room : ℕ → ℕ) where
  -- The pointer is taken after the append, so it is live.
  unfoldable pub with_agent_container : Slice → Slice
  with_agent_container s = elim (find_container_by_name agent_container_name s.items) [
    | some _ ↦ record s { live = true }
    | none ↦ record (append new_room (new_container agent_container_name) s) { live = true }
  ]

  unfoldable pub inject_sandbox : Option ToolSandbox → Slice → Slice
  inject_sandbox none s = s
  inject_sandbox (some sandbox) s =
      let built = build_sidecar_container sandbox in
      elim (find_container_by_name built.name s.items) [
        | some _ ↦ record s { items = write_container built.name (refresh_sandbox built) s.items }
        | none ↦ append new_room built s
      ]

  unfoldable pub inject_opa : Policy → Slice → Slice
  inject_opa p s =
      let built = build_opa_sidecar p in
      let appended : Slice = elim (find_container_by_name built.name s.items) [
        | some _ ↦ s
        | none ↦ append new_room built s
      ] in
      if has_opa_rules p then appended else s

  -- The loop over the policies, on the containers.
  unfoldable pub inject_policies : List Policy → Slice → Slice
  inject_policies [] s = s
  inject_policies (p ∷ rest) s = inject_policies rest (inject_opa p s)

abbrev pub is_named : String → Container → Bool
is_named name c = c.name == name

module _ (marshal : List String → String) where
  -- The same loop, on the init containers.
  unfoldable pub inject_init_containers : List Policy → List Container → List Container
  unfolding has_ebpf_rules build_ebpf_init_container
  inject_init_containers [] cs = cs
  inject_init_containers (p ∷ rest) cs =
      let built = build_ebpf_init_container marshal p in
      inject_init_containers rest (
        if has_ebpf_rules p
        then (if any (is_named built.name) cs then cs else cs ++ built ∷ [])
        else cs)

abbrev pub first_port : List AgentProtocol → Option ℕ
first_port [] = none
first_port (p ∷ _) = some p.port

-- ConfigureSelfHealing through the pointer: into the slice only while the pointer is live.
abbrev pub heal : Option ℕ → Slice → List Container
heal none s = s.items
heal (some port) s =
    if s.live
    then write_container agent_container_name (λ c. configure_self_healing c port) s.items
    else s.items

unfoldable pub self_heal : Agent → Option LifecycleSpec → Slice → List Container
self_heal a none s = s.items
self_heal a (some l) s = if l.self_healing then heal (first_port a.spec.protocols) s else s.items

abbrev lifecycle_annotations : Option LifecycleSpec → Dict String
lifecycle_annotations none = []
lifecycle_annotations (some l) =
    build_lifecycle_annotations l.strategy l.prompt_version l.checkpoint_on_update

abbrev governance_annotations : Agent → Option GovernanceSpec → Dict String
governance_annotations a none = []
governance_annotations a (some g) =
    let d =
      evaluate_governance g.autonomy_level (length a.spec.policy_refs) true
        g.require_policy_compliance in
    build_governance_annotations g.autonomy_level d.status g.human_approval_webhook

abbrev spot_annotations : Option CostIntelligenceSpec → Dict String
spot_annotations none = []
spot_annotations (some c) = if c.spot_instance_fallback then build_spot_annotations else []

abbrev or_empty : Option (Dict String) → Dict String
or_empty none = []
or_empty (some m) = m

-- The annotations of the pod template: the user's, and over them the operator's.
unfoldable pub pod_annotations : Agent → Option (Dict String) → Dict String
unfolding copy build_lifecycle_annotations build_governance_annotations evaluate_governance
    build_spot_annotations
pod_annotations a user =
    copy
      (copy (copy (or_empty user) (lifecycle_annotations a.spec.lifecycle))
        (governance_annotations a a.spec.governance))
      (spot_annotations a.spec.cost_intelligence)

-- A nil pointer is set to 0 first.
abbrev agent_replicas : Option ℕ → Option ℕ → ℕ
agent_replicas (some n) old = n
agent_replicas none (some n) = n
agent_replicas none none = 0

abbrev strategy_of : Option LifecycleSpec → Option DeploymentStrategy → Option DeploymentStrategy
strategy_of none old = old
strategy_of (some l) old =
    some (configure_deployment_strategy l.strategy l.max_surge l.max_unavailable)

abbrev grace_of : Option LifecycleSpec → Option ℕ → Option ℕ
grace_of none old = old
grace_of (some l) old = some l.graceful_shutdown_seconds

-- The containers with the agent's configured, and with the sidecars behind it.
unfoldable pub configured_slice : (ℕ → ℕ) → ℕ → Agent → Inputs → List Container → Slice
configured_slice new_room room a i containers =
    let s =
      with_agent_container new_room (record { items = containers; room = room; live = false }) in
    record s { items = write_container agent_container_name (configure_container a i) s.items }

unfoldable pub injected_slice : (ℕ → ℕ) → ℕ → Agent → Inputs → List Container → Slice
injected_slice new_room room a i containers =
    inject_policies new_room i.policies
      (inject_sandbox new_room i.sandbox (configured_slice new_room room a i containers))

unfoldable pub ensure_containers : (ℕ → ℕ) → ℕ → Agent → Inputs → List Container → List Container
ensure_containers new_room room a i containers =
    self_heal a a.spec.lifecycle (injected_slice new_room room a i containers)

unfoldable pub configure_deployment :
    (List String → String) → (ℕ → ℕ) → ℕ → Agent → Inputs → AgentDeployment → AgentDeployment
unfolding pod_annotations inject_init_containers apply_common_metadata build_pod_template_metadata
    copy configure_deployment_strategy
configure_deployment marshal new_room room a i d =
    let selector_labels : Dict String = ("app", a.name) ∷ [] in
    let (labels, annotations) =
      build_pod_template_metadata selector_labels a.spec.common_metadata a.spec.pod_metadata in
    let m = apply_common_metadata d.metadata a.spec.common_metadata in
    record {
      created = d.created;
      metadata = record m {
        labels = copy m.labels (("app", a.name) ∷ ("framework", i.framework) ∷ []);
      };
      selector = if d.created then d.selector else some selector_labels;
      pod_labels = labels;
      pod_annotations = pod_annotations a annotations;
      replicas = some (agent_replicas a.spec.replicas d.replicas);
      containers = ensure_containers new_room room a i d.containers;
      init_containers = inject_init_containers marshal i.policies d.init_containers;
      volumes = a.spec.volumes;
      strategy = strategy_of a.spec.lifecycle d.strategy;
      termination_grace_period_seconds =
          grace_of a.spec.lifecycle d.termination_grace_period_seconds;
    }
