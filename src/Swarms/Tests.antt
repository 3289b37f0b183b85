-- ===== src/Swarms/Tests.antt =====
-- A swarm with a cluster agent that becomes ready.
use ronak_agentk_runtime.Base.{
  ℕ, String, none, some, [], ◌∷◌, ◌≡◌, ◌≢◌, refl, ap, arith, Dict, length,
}
use ronak_agentk_runtime.Base.Int.{ℤ, pos}
use mathlib.Core.List.{Memᴰ}
use ronak_agentk_runtime.Api.Agent.{Agent}
use ronak_agentk_runtime.Api.Resources.{Swarm}
use ronak_agentk_runtime.Refs.Cluster.{Cluster, agent_key}
use ronak_agentk_runtime.Refs.Wakeups.{AgreeExcept}
use ronak_agentk_runtime.Samples.{empty_cluster, only, plain_agent}
use ronak_agentk_runtime.Swarms.Resolve.{
  resolve_swarm_agents, swarm_key, find_swarms_referencing_agent,
}
use ronak_agentk_runtime.Swarms.Objects.{
  CoordinatorDeployment, CoordinatorService, ensure_deployment, ensure_service,
}
use ronak_agentk_runtime.Swarms.Routed.{IsRouted, ensure_service-IsRouted}
use mathlib.Core.Bool.{false}
use ronak_agentk_runtime.Swarms.Watch.{find_swarms_referencing_agent-complete}

abbrev swarm : Swarm
swarm = record {
  name = "s";
  namespace = "default";
  generation = pos 1;
  spec = record {
    strategy = "chain";
    agents =
        record {
          name = "first";
          agent_ref = some (record { name = "child"; namespace = "" });
          url = "";
          role = "";
        }
        ∷ [];
    max_concurrency = none;
    timeout_seconds = none;
    coordinator_image = "";
    coordinator_port = pos 0;
    replicas = none;
    common_metadata = none;
  };
}

abbrev child : Agent
child = plain_agent "child" "http://child" [] []

abbrev with_child : Cluster
with_child = record empty_cluster { get_agent = only "child" child }

child_agree : AgreeExcept (agent_key child) empty_cluster.get_agent with_child.get_agent
child_agree k h = rw h

swarm_changes : resolve_swarm_agents empty_cluster swarm ≢ resolve_swarm_agents with_child swarm
unfolding resolve_swarm_agents
swarm_changes h =
    let sizes : ◌≡◌ {A = ℕ} 0 1 = ap (λ (r : (Dict String × ℤ) × ℤ). length r.0.0) h in omega arith

find_swarms_referencing_agent-complete_example :
    Memᴰ (swarm_key swarm) (find_swarms_referencing_agent (some (swarm ∷ [])) child)
find_swarms_referencing_agent-complete_example =
    find_swarms_referencing_agent-complete empty_cluster with_child child swarm (swarm ∷ [])
      child_agree (Memᴰ.head refl) swarm_changes

abbrev no_deployment : CoordinatorDeployment
no_deployment = record {
  created = false;
  metadata = record { labels = []; annotations = [] };
  selector = none;
  pod_labels = [];
  pod_annotations = none;
  replicas = none;
  containers = [];
  volumes = [];
}

abbrev no_service : CoordinatorService
no_service = record {
  metadata = record { labels = []; annotations = [] };
  ports = [];
  selector = [];
}

ensure_service-IsRouted_example :
    IsRouted (ensure_deployment swarm no_deployment) (ensure_service swarm no_service)
ensure_service-IsRouted_example = ensure_service-IsRouted swarm no_deployment no_service
