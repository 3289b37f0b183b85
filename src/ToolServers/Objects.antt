-- ===== src/ToolServers/Objects.antt =====
-- ensureDeployment and ensureService of internal/controller/toolserver_reconciler.go: the mutations
-- that controllerutil.CreateOrUpdate is given, without the owner reference.
use ronak_agentk_runtime.Base.{
  ℕ, String, Bool, false, Option, none, some, List, [], ◌∷◌, ◌++◌, Dict, copy, if◌then◌else◌,
}
use ronak_agentk_runtime.Kube.{Container, Probe, tcp_socket, int, ResourceRequirements}
use ronak_agentk_runtime.Api.Agent.{EmbeddedMetadata}
use ronak_agentk_runtime.Api.Resources.{ToolServer}
use ronak_agentk_runtime.Pods.Metadata.{apply_common_metadata, build_pod_template_metadata}
use ronak_agentk_runtime.Deploy.Containers.{find_container_by_name, write_container}
use ronak_agentk_runtime.Deploy.Ensure.{new_container}

abbrev pub toolserver_container_name : String
toolserver_container_name = "toolserver"

pub record ServerDeployment : Type 0 where
  pub created : Bool  -- whether CreationTimestamp is set
  pub metadata : EmbeddedMetadata
  pub selector : Option (Dict String)
  pub pod_labels : Dict String
  pub pod_annotations : Option (Dict String)
  pub replicas : Option ℕ
  pub containers : List Container
  pub image_pull_secrets : List String

pub record ServerPort : Type 0 where
  pub name : String
  pub port : ℕ
  pub target_port : ℕ
  pub protocol : String

pub record ServerService : Type 0 where
  pub metadata : EmbeddedMetadata
  pub ports : List ServerPort
  pub selector : Dict String

abbrev pub new_server_deployment : ServerDeployment
new_server_deployment = record {
  created = false;
  metadata = record { labels = []; annotations = [] };
  selector = none;
  pod_labels = [];
  pod_annotations = none;
  replicas = none;
  containers = [];
  image_pull_secrets = [];
}

abbrev pub new_server_service : ServerService
new_server_service = record {
  metadata = record { labels = []; annotations = [] };
  ports = [];
  selector = [];
}

-- The common metadata, and the managed labels over it.
unfoldable pub managed_server_metadata : ToolServer → EmbeddedMetadata → EmbeddedMetadata
unfolding apply_common_metadata copy
managed_server_metadata t obj =
    let m = apply_common_metadata obj t.spec.common_metadata in
    record m {
      labels = copy m.labels (
          ("app", t.name)
          ∷ ("protocol", t.spec.protocol)
          ∷ ("transport", t.spec.transport_type)
          ∷ []);
    }

abbrev server_resources : Option ResourceRequirements → ResourceRequirements
server_resources (some r) = r
server_resources none = record {
  requests = ("memory", "300Mi") ∷ ("cpu", "100m") ∷ [];
  limits = ("memory", "500Mi") ∷ ("cpu", "500m") ∷ [];
}

unfoldable pub get_or_default_tool_server_resource_requirements : ToolServer → ResourceRequirements
get_or_default_tool_server_resource_requirements t = server_resources t.spec.resources

unfoldable pub build_readiness_probe : ℕ → Probe
build_readiness_probe port = record {
  handler = tcp_socket (int port);
  initial_delay_seconds = 10;
  period_seconds = 10;
  timeout_seconds = 3;
  success_threshold = 1;
  failure_threshold = 10;
}

unfoldable pub configure_server_container : ToolServer → Container → Container
unfolding build_readiness_probe get_or_default_tool_server_resource_requirements
configure_server_container t c = record c {
  image = t.spec.image;
  command = t.spec.command;
  args = t.spec.args;
  ports = record { name = "toolserver"; container_port = t.spec.port; protocol = "TCP" } ∷ [];
  env = t.spec.env;
  env_from = t.spec.env_from;
  readiness_probe = some (build_readiness_probe t.spec.port);
  resources = get_or_default_tool_server_resource_requirements t;
}

-- The container of the name, or a new one behind the others. The pointer to it is taken after the
-- append, and nothing is appended later.
unfoldable pub with_server_container : List Container → List Container
with_server_container cs = elim (find_container_by_name toolserver_container_name cs) [
  | some _ ↦ cs
  | none ↦ cs ++ new_container toolserver_container_name ∷ []
]

-- A nil pointer is 1.
abbrev pub server_replicas : Option ℕ → ℕ
server_replicas (some n) = n
server_replicas none = 1

unfoldable pub ensure_server_deployment : ToolServer → ServerDeployment → ServerDeployment
unfolding managed_server_metadata build_pod_template_metadata copy with_server_container
    configure_server_container write_container
ensure_server_deployment t d =
    let selector_labels : Dict String = ("app", t.name) ∷ [] in
    let (labels, annotations) =
      build_pod_template_metadata selector_labels t.spec.common_metadata t.spec.pod_metadata in
    record {
      created = d.created;
      metadata = managed_server_metadata t d.metadata;
      selector = if d.created then d.selector else some selector_labels;
      pod_labels = labels;
      pod_annotations = annotations;
      replicas = some (server_replicas t.spec.replicas);
      containers =
          write_container toolserver_container_name (configure_server_container t)
            (with_server_container d.containers);
      image_pull_secrets = t.spec.image_pull_secrets;
    }

unfoldable pub ensure_server_service : ToolServer → ServerService → ServerService
unfolding managed_server_metadata
ensure_server_service t s = record {
  metadata = managed_server_metadata t s.metadata;
  ports =
      record {
        name = "toolserver";
        port = t.spec.port;
        target_port = t.spec.port;
        protocol = "TCP";
      }
      ∷ [];
  selector = ("app", t.name) ∷ [];
}
