-- ===== src/Sandboxes/Tests.antt =====
-- A sandbox whose port changes.
use ronak_agentk_runtime.Base.{[], ◌∷◌, some, ◌≡◌, refl}
use ronak_agentk_runtime.Kube.{Container}
use ronak_agentk_runtime.Samples.{plain_sandbox}
use ronak_agentk_runtime.Deploy.Containers.{find_container_by_name}
use ronak_agentk_runtime.Deploy.Sandbox.{build_sidecar_container, start_script}
use ronak_agentk_runtime.ToolServers.Objects.{new_server_deployment}
use ronak_agentk_runtime.Sandboxes.Objects.{ensure_sandbox_deployment}
use ronak_agentk_runtime.Sandboxes.Changed.{ensure_sandbox_deployment-stale}

ensure_sandbox_deployment-stale_example :
    (c : Container) × (find_container_by_name "wasm-sandbox"
        (ensure_sandbox_deployment
          (plain_sandbox 9001)
          (ensure_sandbox_deployment (plain_sandbox 9000) new_server_deployment)).containers
      ≡ some c)
    × (c.ports ≡ (build_sidecar_container (plain_sandbox 9001)).ports)
    × (c.command ≡ "/bin/sh" ∷ "-c" ∷ start_script (plain_sandbox 9000) ∷ [])
unfolding find_container_by_name
ensure_sandbox_deployment-stale_example =
    ensure_sandbox_deployment-stale (plain_sandbox 9000) (plain_sandbox 9001) new_server_deployment
      refl
