-- ===== src/Lifecycle/Tests.antt =====
-- Runs of manager.go.
use ronak_agentk_runtime.Base.{◌≡◌, none, some, true, [], lookup}
use ronak_agentk_runtime.Kube.{Container}
use ronak_agentk_runtime.Lifecycle.{configure_deployment_strategy, build_lifecycle_annotations}
use ronak_agentk_runtime.Lifecycle.Strategy.{describe, annotation-configure}

annotation-configure_example :
    lookup "agentk.io/k8s-strategy-impl" (build_lifecycle_annotations "canary" "v2" true)
    ≡ some (describe (configure_deployment_strategy "canary" "25%" "25%"))
annotation-configure_example = annotation-configure "canary" "v2" "25%" "25%" true

abbrev agent_container : Container
agent_container = record {
  name = "agent";
  image = "agent:1";
  command = [];
  args = [];
  ports = [];
  env = [];
  env_from = [];
  volume_mounts = [];
  resources = record { requests = []; limits = [] };
  readiness_probe = none;
  liveness_probe = none;
  privileged = none;
}
