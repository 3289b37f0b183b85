-- ===== src/Lifecycle.antt =====
-- internal/lifecycle/manager.go
pub mod Strategy
pub mod Phase
mod Tests
use ronak_agentk_runtime.Base.{
  ℕ, String, Bool, true, false, not, ◌&&◌, List, [], ◌∷◌, Dict, insert, non_empty, Option, none,
  some, ◌==◌, if◌then◌else◌,
}
use ronak_agentk_runtime.Base.Int.{ℤ, pos, le_int, eq_int}
use ronak_agentk_runtime.Kube.{
  DeploymentStrategy, rolling_update, recreate, int, str, PodSpec, Container, Probe, tcp_socket,
}

unfoldable pub configure_deployment_strategy : String → String → String → DeploymentStrategy
configure_deployment_strategy strategy max_surge max_unavailable =
    if strategy == "canary"
    then rolling_update (int 1) (int 0)
    else if strategy == "blue-green"
    then recreate
    else rolling_update (str max_surge) (str max_unavailable)

-- fmt's %t
abbrev show_bool : Bool → String
show_bool true = "true"
show_bool false = "false"

abbrev k8s_strategy : String → String
k8s_strategy strategy =
    if strategy == "canary"
    then "RollingUpdate (maxSurge=1, maxUnavailable=0)"
    else if strategy == "blue-green"
    then "Recreate"
    else "RollingUpdate"

unfoldable pub build_lifecycle_annotations : String → String → Bool → Dict String
build_lifecycle_annotations strategy prompt_version checkpoint_on_update =
    let annotations : Dict String =
      ("agentk.io/lifecycle-strategy", strategy)
      ∷ ("agentk.io/k8s-strategy-impl", k8s_strategy strategy)
      ∷ ("agentk.io/checkpoint-on-update", show_bool checkpoint_on_update)
      ∷ [] in
    if non_empty prompt_version
    then insert "agentk.io/prompt-version" prompt_version annotations
    else annotations

-- `replicas != nil && *replicas == 0`
abbrev pub is_scaled_to_zero : Option ℕ → Bool
is_scaled_to_zero none = false
is_scaled_to_zero (some ℕ.zero) = true
is_scaled_to_zero (some (ℕ.suc _)) = false

-- The generations are int64.
unfoldable pub determine_lifecycle_phase : Option ℕ → ℤ → ℤ → String
determine_lifecycle_phase replicas observed_generation current_generation =
    if is_scaled_to_zero replicas
    then "suspended"
    else if le_int (pos 1) observed_generation
        && not (eq_int observed_generation current_generation)
    then "updating"
    else "stable"

unfoldable pub configure_graceful_shutdown : PodSpec → ℕ → PodSpec
configure_graceful_shutdown pod seconds = record pod {
  termination_grace_period_seconds = some seconds;
}

unfoldable pub configure_self_healing : Container → ℕ → Container
configure_self_healing c port = elim c.liveness_probe [
  | some _ ↦ c
  | none ↦ record c {
    liveness_probe = some (record {
      handler = tcp_socket (int port);
      initial_delay_seconds = 15;
      period_seconds = 20;
      timeout_seconds = 3;
      success_threshold = 0;
      failure_threshold = 3;
    });
  }
]
