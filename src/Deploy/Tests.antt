-- ===== src/Deploy/Tests.antt =====
-- Names that sanitizeAgentName changes and keeps, and the deployment of an agent with a sandbox.
use ronak_agentk_runtime.Base.{ℕ, String, true, false, some, List, [], ◌∷◌, ◌≡◌, ◌↔◌, refl}
use ronak_agentk_runtime.Kube.{Container}
use ronak_agentk_runtime.Api.Agent.{Agent, LifecycleSpec}
use ronak_agentk_runtime.Api.Resources.{ToolSandbox}
use ronak_agentk_runtime.Samples.{plain_sandbox, plain_agent, plain_spec}
use ronak_agentk_runtime.Deploy.Containers.{find_container_by_name}
use ronak_agentk_runtime.Deploy.Ensure.{Inputs, new_container, ensure_containers}
use ronak_agentk_runtime.Deploy.Served.{ensure_containers_keeps}
use ronak_agentk_runtime.Deploy.Healing.{is_probed, ensure_containers-probed}
use ronak_agentk_runtime.Deploy.Moved.{ensure_containers-unprobed}
use ronak_agentk_runtime.Deploy.Template.{sanitize_agent_name}
use ronak_agentk_runtime.Deploy.Names.{IsEnvName, sanitize_agent_name-IsEnvName}

sanitize_agent_name-IsEnvName_example :
    IsEnvName (sanitize_agent_name "2-fast")
    × ((sanitize_agent_name "2-fast" ≡ "2-fast") ↔ IsEnvName "2-fast")
sanitize_agent_name-IsEnvName_example = sanitize_agent_name-IsEnvName "2-fast"

-- An agent that heals itself and serves one port, with a sandbox and a policy.
abbrev healing : LifecycleSpec
healing = record {
  strategy = "rolling";
  prompt_version = "";
  checkpoint_on_update = false;
  graceful_shutdown_seconds = 30;
  self_healing = true;
  max_surge = "25%";
  max_unavailable = "0";
}

abbrev serving : Agent
serving = record (plain_agent "a" "" [] []) {
  spec = record (plain_spec [] []) {
    protocols = record { name = "a2a"; kind = "A2A"; port = 8000; path = "" } ∷ [];
    lifecycle = some healing;
  };
}

abbrev sandbox : ToolSandbox
sandbox = plain_sandbox 9000

abbrev inputs : Inputs
inputs = record {
  framework = "google-adk";
  template_image = "adk";
  env = [];
  sandbox = some sandbox;
  policies = [];
}

-- A runtime that gives every new array just the room that is needed.
abbrev tight : ℕ → ℕ
tight _ = 0

abbrev marshal : List String → String
marshal _ = "[]"

ensure_containers-probed_example :
    is_probed (
      find_container_by_name "agent"
        (ensure_containers tight 3 serving inputs (ensure_containers tight 0 serving inputs [])))
    ≡ true
ensure_containers-probed_example =
    ensure_containers-probed tight 0 3 serving inputs [] refl refl refl

ensure_containers-unprobed_example :
    is_probed (find_container_by_name "agent" (ensure_containers tight 0 serving inputs [])) ≡ false
ensure_containers-unprobed_example = ensure_containers-unprobed tight serving inputs refl refl

-- A container of another controller.
abbrev proxy : Container
proxy = new_container "istio-proxy"

ensure_containers_keeps_example :
    find_container_by_name "istio-proxy" (ensure_containers tight 0 serving inputs (proxy ∷ []))
    ≡ find_container_by_name "istio-proxy" (proxy ∷ [])
ensure_containers_keeps_example =
    ensure_containers_keeps tight 0 serving inputs "istio-proxy" (proxy ∷ []) refl refl refl
