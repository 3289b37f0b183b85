-- ===== src/Pods/Protocols.antt =====
-- internal/controller/agent_probe.go, and the URLs of agent_config.go
use ronak_agentk_runtime.Base.{
  String, Option, none, some, List, [], ◌∷◌, ◌==◌, is_empty, if◌then◌else◌, itoa,
}
use Prim.Native.String.{◌++◌}
use ronak_agentk_runtime.Kube.{Probe, http_get, int}
use ronak_agentk_runtime.Api.Agent.{Agent, AgentProtocol, a2a_protocol}

abbrev pub agent_card_endpoint : String
agent_card_endpoint = "/.well-known/agent-card.json"

-- the first A2A protocol
unfoldable pub find_a2a : List AgentProtocol → Option AgentProtocol
find_a2a [] = none
find_a2a (p ∷ rest) = if p.kind == a2a_protocol then some p else find_a2a rest

unfoldable pub find_a2a_protocol : Agent → Option AgentProtocol
unfolding find_a2a
find_a2a_protocol a = find_a2a a.spec.protocols

unfoldable pub generate_readiness_probe : Agent → Option Probe
unfolding find_a2a_protocol
generate_readiness_probe a = elim (find_a2a_protocol a) [
  | none ↦ none
  | some p ↦ some (record {
    handler = http_get (p.path ++ agent_card_endpoint) (int p.port);
    initial_delay_seconds = 10;
    period_seconds = 10;
    timeout_seconds = 3;
    success_threshold = 1;
    failure_threshold = 10;
  })
]

-- the loop of buildA2AAgentRpcUrl
unfoldable pub rpc_url : Agent → List AgentProtocol → String
unfolding itoa
rpc_url a [] = ""
rpc_url a (p ∷ rest) =
    if p.kind == a2a_protocol
    then "http://" ++ a.name ++ "." ++ a.namespace ++ ".svc.cluster.local:" ++ itoa p.port ++ p.path
    else rpc_url a rest

unfoldable pub build_a2a_agent_rpc_url : Agent → String
unfolding rpc_url
build_a2a_agent_rpc_url a = rpc_url a a.spec.protocols

unfoldable pub build_a2a_agent_card_url : Agent → String
unfolding build_a2a_agent_rpc_url
build_a2a_agent_card_url a =
    let url = build_a2a_agent_rpc_url a in if is_empty url then "" else url ++ agent_card_endpoint
