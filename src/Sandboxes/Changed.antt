-- ===== src/Sandboxes/Changed.antt =====
-- The container of a sandbox whose spec changes.
use ronak_agentk_runtime.Base.{
  String, Option, none, some, List, [], ◌∷◌, map, All, lookup, copy, lookup-insert, ◌≡◌, refl, ◌∙◌,
  ap, inl, inr, Option-cases,
}
use ronak_agentk_runtime.Kube.{Container, ContainerPort}
use ronak_agentk_runtime.Api.Resources.{ToolSandbox}
use ronak_agentk_runtime.Pods.Metadata.{labels_of, build_pod_template_metadata}
use ronak_agentk_runtime.Deploy.Containers.{find_container_by_name}
use ronak_agentk_runtime.Deploy.Found.{find-write_self, find-append_none}
use ronak_agentk_runtime.Deploy.Sandbox.{build_sidecar_container, start_script}
use ronak_agentk_runtime.ToolServers.Objects.{ServerDeployment, ServerService, ServerPort}
use ronak_agentk_runtime.Sandboxes.Objects.{
  updated_sandbox, put_sandbox_container, ensure_sandbox_deployment, ensure_sandbox_service,
}

-- The container that is found after it is put.
abbrev put : Container → Option Container → Container
put built none = built
put built (some c) = updated_sandbox built c

find-put_sandbox_container :
    (built : Container) (cs : List Container)
    → built.name ≡ "wasm-sandbox"
    → find_container_by_name "wasm-sandbox" (put_sandbox_container built cs)
      ≡ some (put built (find_container_by_name "wasm-sandbox" cs))
unfolding put_sandbox_container updated_sandbox
find-put_sandbox_container built cs named =
    elim (Option-cases (find_container_by_name "wasm-sandbox" cs)) [
      | inl e ↦
          rw (put_sandbox_container, e) (find-append_none "wasm-sandbox" cs built e ∙ rw named refl)
      | inr (c, e) ↦
          rw (put_sandbox_container, e)
            (find-write_self "wasm-sandbox" (updated_sandbox built) (λ x. refl) cs ∙ rw e refl)
    ]

-- The sandbox's container and its service fit: the container has the sandbox's port, the service
-- selects the pods and has that port as its target.
pub record IsOpen (s : ToolSandbox) (d : ServerDeployment) (svc : ServerService) : Type 0 where
  pub container : Container
  pub found : find_container_by_name "wasm-sandbox" d.containers ≡ some container
  pub opens : map (λ (p : ContainerPort). p.container_port) container.ports ≡ s.port ∷ []
  pub selects : All (λ (b : String × String). lookup b.0 d.pod_labels ≡ some b.1) svc.selector
  pub reaches : map (λ (p : ServerPort). p.target_port) svc.ports ≡ s.port ∷ []

ensure_sandbox-find :
    (s : ToolSandbox) (d : ServerDeployment)
    → find_container_by_name "wasm-sandbox" (ensure_sandbox_deployment s d).containers
      ≡ some (put (build_sidecar_container s) (find_container_by_name "wasm-sandbox" d.containers))
unfolding ensure_sandbox_deployment
ensure_sandbox-find s d =
    find-put_sandbox_container (build_sidecar_container s) d.containers
      (unfold build_sidecar_container in refl)

put-ports : (built : Container) (o : Option Container) → (put built o).ports ≡ built.ports
unfolding updated_sandbox
put-ports built none = refl
put-ports built (some c) = refl

-- Whatever deployment and service there were, after both are ensured they fit the sandbox.
pub ensure_sandbox_service-IsOpen :
    (s : ToolSandbox) (d : ServerDeployment) (svc : ServerService)
    → IsOpen s (ensure_sandbox_deployment s d) (ensure_sandbox_service s svc)
unfolding ensure_sandbox_deployment ensure_sandbox_service build_pod_template_metadata copy
    build_sidecar_container
ensure_sandbox_service-IsOpen s d svc =
    let before = find_container_by_name "wasm-sandbox" d.containers in
    record {
      container = put (build_sidecar_container s) before;
      found = ensure_sandbox-find s d;
      opens =
          ap (map (λ (p : ContainerPort). p.container_port))
            (put-ports (build_sidecar_container s) before);
      selects = (lookup-insert "app" "app" s.name (copy [] (labels_of s.common_metadata)), tt);
      reaches = refl;
    }

-- When the spec of a sandbox changes, its container keeps the first start script: if a deployment
-- without the container wasm-sandbox is ensured for one sandbox and then for another, the
-- container that is found opens the port of the second and runs the script built from the first,
-- which names the port, the timeout and the allowed hosts.
pub ensure_sandbox_deployment-stale :
    (s changed : ToolSandbox) (d : ServerDeployment)
    → find_container_by_name "wasm-sandbox" d.containers ≡ none
    → (c : Container) × (find_container_by_name "wasm-sandbox"
          (ensure_sandbox_deployment changed (ensure_sandbox_deployment s d)).containers
        ≡ some c)
      × (c.ports ≡ (build_sidecar_container changed).ports)
      × (c.command ≡ "/bin/sh" ∷ "-c" ∷ start_script s ∷ [])
unfolding updated_sandbox build_sidecar_container
ensure_sandbox_deployment-stale s changed d fresh =
    let first =
      ensure_sandbox-find s d ∙ ap (λ o. some (put (build_sidecar_container s) o)) fresh in
    let again =
      ensure_sandbox-find changed (ensure_sandbox_deployment s d)
      ∙ ap (λ o. some (put (build_sidecar_container changed) o)) first in
    (
      updated_sandbox (build_sidecar_container changed) (build_sidecar_container s),
      again,
      refl,
      refl,
    )
