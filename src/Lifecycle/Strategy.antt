-- ===== src/Lifecycle/Strategy.antt =====
-- The strategy that manager.go configures, against the one that it writes in the annotations.
use ronak_agentk_runtime.Base.{ℕ, String, Bool, ◌≡◌, some, lookup, insert, arith}
use ronak_agentk_runtime.Kube.{DeploymentStrategy, rolling_update, recreate, int}
use ronak_agentk_runtime.Lifecycle.{configure_deployment_strategy, build_lifecycle_annotations}

-- The text by which the annotations are to name a Kubernetes strategy.
abbrev pub describe : DeploymentStrategy → String
describe recreate = "Recreate"
describe (rolling_update (int ℕ.zero) _) = "RollingUpdate"
describe (rolling_update (int (ℕ.suc ℕ.zero)) (int ℕ.zero)) =
    "RollingUpdate (maxSurge=1, maxUnavailable=0)"
describe (rolling_update _ _) = "RollingUpdate"

-- The strategy that the lifecycle annotations name is the one that the deployment gets: for every
-- strategy text, surge and unavailability, the annotation k8s-strategy-impl describes the
-- configured Kubernetes strategy.
pub annotation-configure :
    (strategy version surge unavailable : String) (checkpoint : Bool)
    → lookup "agentk.io/k8s-strategy-impl" (build_lifecycle_annotations strategy version checkpoint)
      ≡ some (describe (configure_deployment_strategy strategy surge unavailable))
unfolding build_lifecycle_annotations configure_deployment_strategy lookup insert
annotation-configure strategy version surge unavailable checkpoint = ground arith
