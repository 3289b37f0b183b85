-- ===== src/Swarms/Reconcile.antt =====
-- Reconcile and the status of internal/controller/swarm_reconciler.go. meta.SetStatusCondition and
-- what the API server answers to a round's writes are parameters.
use ronak_agentk_runtime.Base.{
  String, Bool, true, false, Option, none, some, List, Dict, Fetched, found, not_found, no_match,
  failed, itoa, join, [], ◌∷◌,
}
use ronak_agentk_runtime.Base.Int.{ℤ, show_int}
use Prim.Native.String.{◌++◌}
use ronak_agentk_runtime.Api.Agent.{Condition}
use ronak_agentk_runtime.Api.Resources.{Swarm}
use ronak_agentk_runtime.Refs.Cluster.{Cluster}
use ronak_agentk_runtime.Swarms.Coordinator.{get_coordinator_port, coordinator_name}
use ronak_agentk_runtime.Swarms.Resolve.{resolve_swarm_agents}

pub record SwarmStatus : Type 0 where
  pub conditions : List Condition
  pub ready_agents : ℤ
  pub total_agents : ℤ
  pub coordinator_url : String
  pub strategy : String

-- The error of each write, or `none`; the config map is written from the URLs.
pub record Writes : Type 0 where
  pub config_map : Dict String → Option String
  pub deployment : Option String
  pub service : Option String
  pub status : Option String

-- The status handed to Status().Update, if any, and the error returned.
pub record SwarmOutcome : Type 0 where
  pub written : Option SwarmStatus
  pub error : Option String

abbrev swarm_condition : Swarm → Bool → String → String → Condition
swarm_condition sw status reason message = record {
  kind = "Ready";
  status = status;
  reason = reason;
  message = message;
  observed_generation = sw.generation;
}

module _ (set_status_condition : List Condition → Condition → List Condition) where
  unfoldable pub update_swarm_status_ready : Swarm → SwarmStatus → ℤ → ℤ → SwarmStatus
  unfolding get_coordinator_port coordinator_name itoa show_int
  update_swarm_status_ready sw status ready_agents total_agents = record {
    conditions = set_status_condition status.conditions (
        swarm_condition sw true "Reconciled" (
          join "" (
            "Swarm coordinator is ready ("
            ∷ show_int ready_agents
            ∷ "/"
            ∷ show_int total_agents
            ∷ " agents available)"
            ∷ [])));
    ready_agents = ready_agents;
    total_agents = total_agents;
    coordinator_url = join "" (
        "http://"
        ∷ coordinator_name sw.name
        ∷ "."
        ∷ sw.namespace
        ∷ ".svc.cluster.local:"
        ∷ itoa (get_coordinator_port sw.spec)
        ∷ []);
    strategy = sw.spec.strategy;
  }

  unfoldable pub update_swarm_status_not_ready : Swarm → SwarmStatus → String → String → SwarmStatus
  update_swarm_status_not_ready sw status reason message = record status {
    conditions = set_status_condition status.conditions (swarm_condition sw false reason message);
  }

  -- A write that failed: the status says so, and its error is returned whether or not the status
  -- could be written.
  abbrev pub stopped : Swarm → SwarmStatus → String → String → SwarmOutcome
  stopped sw status reason m = record {
    written = some (update_swarm_status_not_ready sw status reason m);
    error = some m;
  }

  abbrev status_error : Option String → Option String
  status_error none = none
  status_error (some m) = some ("failed to update swarm status: " ++ m)

  -- `reconcile_swarm` runs Reconcile's body on a swarm.
  unfoldable pub reconcile_swarm : Cluster → Writes → Swarm → SwarmStatus → SwarmOutcome
  unfolding resolve_swarm_agents update_swarm_status_ready update_swarm_status_not_ready
  reconcile_swarm c w sw status =
      let ((agent_urls, ready_count), total_count) = resolve_swarm_agents c sw in
      elim (w.config_map agent_urls) [
        | some m ↦ stopped sw status "ConfigMapFailed" m
        | none ↦ elim w.deployment [
          | some m ↦ stopped sw status "DeploymentFailed" m
          | none ↦ elim w.service [
            | some m ↦ stopped sw status "ServiceFailed" m
            | none ↦ record {
              written = some (update_swarm_status_ready sw status ready_count total_count);
              error = status_error w.status;
            }
          ]
        ]
      ]

  -- Reconcile, from what the Get of the swarm gives; the status stands beside the swarm.
  unfoldable pub reconcile_fetched : Cluster → Writes → Fetched (Swarm × SwarmStatus) → SwarmOutcome
  unfolding reconcile_swarm
  reconcile_fetched c w (found (sw, status)) = reconcile_swarm c w sw status
  reconcile_fetched c w not_found = record { written = none; error = none }
  reconcile_fetched c w no_match = record { written = none; error = some "no matches for kind" }
  reconcile_fetched c w (failed m) = record { written = none; error = some m }
