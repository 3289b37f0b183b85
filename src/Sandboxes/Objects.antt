-- ===== src/Sandboxes/Objects.antt =====
-- ensureDeployment and ensureService of internal/controller/toolsandbox_reconciler.go: the mutations
-- that controllerutil.CreateOrUpdate is given, without the owner reference. The objects have the
-- fields of a tool server's.
use ronak_agentk_runtime.Base.{String, none, some, List, [], ◌∷◌, ◌++◌, Dict, copy, if◌then◌else◌}
use ronak_agentk_runtime.Kube.{Container}
use ronak_agentk_runtime.Api.Agent.{EmbeddedMetadata}
use ronak_agentk_runtime.Api.Resources.{ToolSandbox}
use ronak_agentk_runtime.Pods.Metadata.{apply_common_metadata, build_pod_template_metadata}
use ronak_agentk_runtime.Deploy.Containers.{find_container_by_name, write_container}
use ronak_agentk_runtime.Deploy.Sandbox.{build_sidecar_container}
use ronak_agentk_runtime.ToolServers.Objects.{ServerDeployment, ServerService, server_replicas}

abbrev pub sandbox_container_name : String
sandbox_container_name = "wasm-sandbox"

-- The common metadata, and the managed labels over it.
unfoldable pub managed_sandbox_metadata : ToolSandbox → EmbeddedMetadata → EmbeddedMetadata
unfolding apply_common_metadata copy
managed_sandbox_metadata s obj =
    let m = apply_common_metadata obj s.common_metadata in
    record m { labels = copy m.labels (("app", s.name) ∷ ("runtime", s.runtime) ∷ []) }

-- What an existing container takes from the built one: not its command.
unfoldable pub updated_sandbox : Container → Container → Container
updated_sandbox built c = record c {
  image = built.image;
  ports = built.ports;
  env = built.env;
  resources = built.resources;
  readiness_probe = built.readiness_probe;
}

unfoldable pub put_sandbox_container : Container → List Container → List Container
put_sandbox_container built cs = elim (find_container_by_name sandbox_container_name cs) [
  | none ↦ cs ++ built ∷ []
  | some _ ↦ write_container sandbox_container_name (updated_sandbox built) cs
]

unfoldable pub ensure_sandbox_deployment : ToolSandbox → ServerDeployment → ServerDeployment
unfolding managed_sandbox_metadata build_pod_template_metadata copy put_sandbox_container
    build_sidecar_container
ensure_sandbox_deployment s d =
    let selector_labels : Dict String = ("app", s.name) ∷ [] in
    let (labels, annotations) =
      build_pod_template_metadata selector_labels s.common_metadata none in
    record d {
      metadata = managed_sandbox_metadata s d.metadata;
      selector = if d.created then d.selector else some selector_labels;
      pod_labels = labels;
      pod_annotations = annotations;
      replicas = some (server_replicas s.replicas);
      containers = put_sandbox_container (build_sidecar_container s) d.containers;
    }

unfoldable pub ensure_sandbox_service : ToolSandbox → ServerService → ServerService
unfolding managed_sandbox_metadata
ensure_sandbox_service s svc = record {
  metadata = managed_sandbox_metadata s svc.metadata;
  ports = record { name = "sandbox"; port = s.port; target_port = s.port; protocol = "TCP" } ∷ [];
  selector = ("app", s.name) ∷ [];
}
