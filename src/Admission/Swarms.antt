-- ===== src/Admission/Swarms.antt =====
-- internal/webhook/v1alpha1/swarm_webhook.go
use ronak_agentk_runtime.Base.{
  ℕ, String, Bool, not, ◌&&◌, Option, none, some, List, [], ◌∷◌, ◌++◌, ◌==◌, any, is_empty,
  non_empty, is_some, if◌then◌else◌,
}
use Prim.Native.String
use ronak_agentk_runtime.Refs.Cluster.{quote}
use ronak_agentk_runtime.Api.Resources.{SwarmSpec, SwarmAgent}
use ronak_agentk_runtime.Admission.Errors.{FieldError, required, invalid, when, index, each}

abbrev pub default_coordinator_image : String
default_coordinator_image = "ghcr.io/agentic-layer/swarm-coordinator:0.1.0"

abbrev or_one : Option ℕ → Option ℕ
or_one none = some 1
or_one (some n) = some n

-- Default
unfoldable pub default_swarm : SwarmSpec → SwarmSpec
default_swarm s = record s {
  coordinator_image =
      if is_empty s.coordinator_image then default_coordinator_image else s.coordinator_image;
  replicas = or_one s.replicas;
}

unfoldable pub validate_swarm_agent : SwarmAgent → ℕ → List FieldError
unfolding index
validate_swarm_agent a i =
    when (not (is_some a.agent_ref) && is_empty a.url) (record {
      kind = required;
      field = index "agents" i;
      detail =
          String.◌++◌ "agent " (String.◌++◌ (quote a.name) " must specify either agentRef or url");
    })
    ++ when (is_some a.agent_ref && non_empty a.url) (record {
      kind = invalid;
      field = String.◌++◌ (index "agents" i) ".url";
      detail =
          String.◌++◌ "agent "
            (String.◌++◌ (quote a.name) " must specify either agentRef or url, not both");
    })

abbrev pub has_leader : List SwarmAgent → Bool
has_leader = any (λ (a : SwarmAgent). a.role == "leader")

-- The errors and the warnings of validateSwarm.
unfoldable pub validate_swarm : SwarmSpec → List FieldError × List String
unfolding validate_swarm_agent
validate_swarm s = (
  each validate_swarm_agent 0 s.agents
      ++ when (s.strategy == "leader-follower" && not (has_leader s.agents)) (record {
        kind = required;
        field = "spec.agents";
        detail = "leader-follower strategy requires at least one agent with role \"leader\"";
      }),
  if s.coordinator_image == default_coordinator_image
      then String.◌++◌ "spec.coordinatorImage is set to the default image " (
          String.◌++◌ (quote default_coordinator_image)
            " which may not exist in your container registry. Set spec.coordinatorImage to a valid image to avoid ImagePullBackOff errors.")
        ∷ []
      else [],
)
