-- ===== src/Swarms/Coordinator.antt =====
-- internal/swarm/coordinator.go; json.MarshalIndent is a parameter.
use ronak_agentk_runtime.Base.{
  ℕ, zero, suc, String, true, Option, none, some, List, [], ◌∷◌, Dict, lookup, length, non_empty,
  if◌then◌else◌, itoa,
}
use ronak_agentk_runtime.Base.Int.{ℤ, pos, negsuc, to_int32}
use Prim.Native.String.{◌++◌}
use ronak_agentk_runtime.Kube.{Container, Volume, config_map, tcp_socket, int}
use ronak_agentk_runtime.Api.Resources.{SwarmAgent, SwarmSpec}

pub record CoordinatorAgentInfo : Type 0 where
  pub name : String
  pub url : String
  pub role : String

pub record CoordinatorConfig : Type 0 where
  pub strategy : String
  pub agents : List CoordinatorAgentInfo
  pub max_concurrency : ℤ
  pub timeout_seconds : ℤ

-- The loop over the swarm's agents, which skips one without a URL.
unfoldable pub agents_with_url : Dict String → List SwarmAgent → List CoordinatorAgentInfo
unfolding lookup
agents_with_url urls [] = []
agents_with_url urls (sa ∷ rest) = elim (lookup sa.name urls) [
  | none ↦ agents_with_url urls rest
  | some url ↦ record { name = sa.name; url = url; role = sa.role } ∷ agents_with_url urls rest
]

-- `*p` where p is set, and else a value
abbrev int32_or : Option ℕ → ℤ → ℤ
int32_or none d = d
int32_or (some n) d = pos n

unfoldable pub coordinator_config : SwarmSpec → Dict String → CoordinatorConfig
unfolding agents_with_url to_int32
coordinator_config s urls = record {
  strategy = s.strategy;
  agents = agents_with_url urls s.agents;
  max_concurrency = int32_or s.max_concurrency (to_int32 (length s.agents));
  timeout_seconds = int32_or s.timeout_seconds (pos 60);
}

-- The text of the configuration; the source drops the error of the encoder.
unfoldable pub build_coordinator_config :
    (CoordinatorConfig → String) → SwarmSpec → Dict String → String
unfolding coordinator_config
build_coordinator_config marshal s urls = marshal (coordinator_config s urls)

unfoldable pub get_coordinator_image : SwarmSpec → String
get_coordinator_image s =
    if non_empty s.coordinator_image
    then s.coordinator_image
    else "ghcr.io/agentic-layer/swarm-coordinator:0.1.0"

abbrev positive_or : ℤ → ℕ → ℕ
positive_or (pos zero) d = d
positive_or (pos (suc n)) d = suc n
positive_or (negsuc n) d = d

unfoldable pub get_coordinator_port : SwarmSpec → ℕ
get_coordinator_port s = positive_or s.coordinator_port 8080

unfoldable pub build_coordinator_container : SwarmSpec → Container
unfolding get_coordinator_port get_coordinator_image itoa
build_coordinator_container s =
    let port = get_coordinator_port s in
    record {
      name = "swarm-coordinator";
      image = get_coordinator_image s;
      command = [];
      args = [];
      ports = record { name = "http"; container_port = port; protocol = "TCP" } ∷ [];
      env =
          record { name = "SWARM_CONFIG_PATH"; value = "/etc/swarm/config.json"; value_from = none }
          ∷ record { name = "SWARM_PORT"; value = itoa port; value_from = none }
          ∷ [];
      env_from = [];
      volume_mounts =
          record { name = "swarm-config"; mount_path = "/etc/swarm"; read_only = true } ∷ [];
      resources = record {
        requests = ("memory", "64Mi") ∷ ("cpu", "50m") ∷ [];
        limits = ("memory", "256Mi") ∷ ("cpu", "200m") ∷ [];
      };
      readiness_probe = some (record {
        handler = tcp_socket (int port);
        initial_delay_seconds = 5;
        period_seconds = 10;
        timeout_seconds = 0;
        success_threshold = 0;
        failure_threshold = 0;
      });
      liveness_probe = none;
      privileged = none;
    }

unfoldable pub build_config_volume : String → Volume
build_config_volume config_map_name = record {
  name = "swarm-config";
  source = config_map config_map_name;
}

unfoldable pub coordinator_name : String → String
coordinator_name swarm_name = swarm_name ++ "-coordinator"

unfoldable pub config_map_name : String → String
config_map_name swarm_name = swarm_name ++ "-coordinator-config"
