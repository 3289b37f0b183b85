-- ===== src/Swarms/Routed.antt =====
-- A swarm's service reaches its coordinator.
use ronak_agentk_runtime.Base.{
  String, Option, none, some, List, [], ◌∷◌, map, All, lookup, copy, lookup-insert, ◌≡◌, refl, inl,
  inr, Bool-cases, eq_refl, ◌==◌,
}
use ronak_agentk_runtime.Kube.{Container, ContainerPort}
use ronak_agentk_runtime.Api.Resources.{Swarm}
use ronak_agentk_runtime.Pods.Metadata.{labels_of, build_pod_template_metadata}
use ronak_agentk_runtime.Deploy.Containers.{find_container_by_name}
use ronak_agentk_runtime.Swarms.Coordinator.{build_coordinator_container, coordinator_name}
use ronak_agentk_runtime.Swarms.Objects.{
  CoordinatorDeployment, CoordinatorService, ServicePort, selector_labels, put_container,
  ensure_deployment, ensure_service,
}

abbrev pub ports_of : Option Container → List ContainerPort
ports_of none = []
ports_of (some c) = c.ports

find-put_container :
    (built : Container) (containers : List Container)
    → ports_of (find_container_by_name built.name (put_container built containers)) ≡ built.ports
unfolding find_container_by_name put_container
find-put_container built [] = rw (eq_refl built.name) refl
find-put_container built (c ∷ rest) = elim (Bool-cases (c.name == built.name)) [
  | inl t ↦ rw t (rw t refl)
  | inr t ↦ rw t (rw t (find-put_container built rest))
]

-- The service selects the pods of the deployment, and its one target port is the port of the
-- container swarm-coordinator.
pub record IsRouted (d : CoordinatorDeployment) (s : CoordinatorService) : Type 0 where
  pub selects : All (λ (b : String × String). lookup b.0 d.pod_labels ≡ some b.1) s.selector
  pub reaches :
      map (λ (p : ServicePort). p.target_port) s.ports
      ≡ map
          (λ (p : ContainerPort). p.container_port)
          (ports_of (find_container_by_name "swarm-coordinator" d.containers))

-- Whatever deployment and service the cluster had for a swarm before, after both are ensured the
-- service selects the pods of the deployment by their labels, whatever the common metadata says,
-- and the target ports of the service are the ports of the deployment's container swarm-
-- coordinator.
pub ensure_service-IsRouted :
    (sw : Swarm) (d : CoordinatorDeployment) (s : CoordinatorService)
    → IsRouted (ensure_deployment sw d) (ensure_service sw s)
unfolding ensure_deployment ensure_service selector_labels build_pod_template_metadata copy
    build_coordinator_container
ensure_service-IsRouted sw d s = record {
  selects = (
    lookup-insert "app" "app" (coordinator_name sw.name)
        (copy [] (labels_of sw.spec.common_metadata)),
    tt,
  );
  reaches = rw (find-put_container (build_coordinator_container sw.spec) d.containers) refl;
}
