-- ===== src/ToolServers/Routed.antt =====
-- A tool server's service reaches its container.
use ronak_agentk_runtime.Base.{
  String, Option, none, some, List, [], map, All, lookup, copy, lookup-insert, ◌≡◌, refl, inl, inr,
  Option-cases, ◌∙◌, ap,
}
use mathlib.Core.Option
use ronak_agentk_runtime.Kube.{Container, ContainerPort}
use ronak_agentk_runtime.Api.Resources.{ToolServer}
use ronak_agentk_runtime.Pods.Metadata.{labels_of, build_pod_template_metadata}
use ronak_agentk_runtime.Deploy.Containers.{find_container_by_name}
use ronak_agentk_runtime.Deploy.Ensure.{new_container}
use ronak_agentk_runtime.Deploy.Found.{find-write_self, find-append_none}
use ronak_agentk_runtime.ToolServers.Objects.{
  ServerDeployment, ServerService, ServerPort, configure_server_container, with_server_container,
  ensure_server_deployment, ensure_server_service,
}

-- The container toolserver runs the server's image with its environment, and the service selects
-- the pods and has the container's port as its target.
pub record IsReached (t : ToolServer) (d : ServerDeployment) (s : ServerService) : Type 0 where
  pub container : Container
  pub found : find_container_by_name "toolserver" d.containers ≡ some container
  pub runs : (container.image ≡ t.spec.image) × (container.env ≡ t.spec.env)
  pub selects : All (λ (b : String × String). lookup b.0 d.pod_labels ≡ some b.1) s.selector
  pub reaches :
      map (λ (p : ServerPort). p.target_port) s.ports
      ≡ map (λ (p : ContainerPort). p.container_port) container.ports

-- The container before it is configured.
abbrev or_fresh : Option Container → Container
or_fresh none = new_container "toolserver"
or_fresh (some c) = c

with_server_container-find :
    (cs : List Container)
    → find_container_by_name "toolserver" (with_server_container cs)
      ≡ some (or_fresh (find_container_by_name "toolserver" cs))
unfolding with_server_container
with_server_container-find cs = elim (Option-cases (find_container_by_name "toolserver" cs)) [
  | inl e ↦
      rw (with_server_container, e)
        (find-append_none "toolserver" cs (new_container "toolserver") e)
  | inr (c, e) ↦ rw (with_server_container, e) e
]

-- Whatever deployment and service the cluster had for a tool server before, after both are ensured
-- the container toolserver runs the server's image with its environment, the service's selector
-- picks the pods' labels whatever the common and pod metadata say, and the service's target port
-- is the container's.
pub ensure_server_service-IsReached :
    (t : ToolServer) (d : ServerDeployment) (s : ServerService)
    → IsReached t (ensure_server_deployment t d) (ensure_server_service t s)
unfolding ensure_server_deployment ensure_server_service build_pod_template_metadata copy
    configure_server_container
ensure_server_service-IsReached t d s = record {
  container =
      configure_server_container t (or_fresh (find_container_by_name "toolserver" d.containers));
  found =
      find-write_self "toolserver" (configure_server_container t) (λ c. refl)
        (with_server_container d.containers)
      ∙ ap (Option.map (configure_server_container t)) (with_server_container-find d.containers);
  runs = (refl, refl);
  selects = (
    lookup-insert "app" "app" t.name
        (copy (copy [] (labels_of t.spec.common_metadata)) (labels_of t.spec.pod_metadata)),
    tt,
  );
  reaches = refl;
}
