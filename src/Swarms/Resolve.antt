-- ===== src/Swarms/Resolve.antt =====
-- The agents of a swarm and the watch on agents, in internal/controller/swarm_reconciler.go.
use ronak_agentk_runtime.Base.{
  String, Bool, Option, none, some, List, [], ◌∷◌, Dict, insert, non_empty, is_empty, if◌then◌else◌,
  any, length, Result, ok, err, Fetched,
}
use ronak_agentk_runtime.Base.Int.{ℤ, pos, add32, to_int32}
use Prim.Native.String.{◌++◌}
use ronak_agentk_runtime.Kube.{ObjectReference, NamespacedName}
use ronak_agentk_runtime.Api.Agent.{Agent}
use ronak_agentk_runtime.Api.Resources.{SwarmAgent, Swarm}
use ronak_agentk_runtime.Refs.Cluster.{
  Cluster, get_namespace_with_default, target, agent_key, show_key, or_error, quote,
}
use ronak_agentk_runtime.Refs.SubAgents.{refers_to}

abbrev url_in_status : NamespacedName → Result Agent → Result String
url_in_status key (err m) = err m
url_in_status key (ok a) =
    if is_empty a.status.url
    then err ("agent " ++ show_key key ++ " has no URL in status (may not be ready)")
    else ok a.status.url

abbrev pub resolve_agent_ref :
    (NamespacedName → Fetched Agent) → String → Option ObjectReference → String → Result String
resolve_agent_ref get name none parent_namespace =
    err ("agent " ++ quote name ++ " has neither url nor agentRef specified")
resolve_agent_ref get name (some ref) parent_namespace =
    let key = target ref parent_namespace in
    url_in_status key (or_error ("failed to resolve agent " ++ show_key key ++ ": ") (get key))

unfoldable pub resolve_swarm_agent_url : Cluster → SwarmAgent → String → Result String
unfolding get_namespace_with_default
resolve_swarm_agent_url c sa parent_namespace =
    if non_empty sa.url
    then ok sa.url
    else resolve_agent_ref c.get_agent sa.name sa.agent_ref parent_namespace

-- One round of the loop: the URL of a resolved agent is entered, and the agent is counted.
abbrev record_agent : String → Result String → Dict String × ℤ → Dict String × ℤ
record_agent name (ok url) (urls, ready_count) = (insert name url urls, add32 ready_count (pos 1))
record_agent name (err m) acc = acc

unfoldable pub resolve_from : Cluster → String → List SwarmAgent → Dict String × ℤ → Dict String × ℤ
unfolding resolve_swarm_agent_url insert add32
resolve_from c ns [] acc = acc
resolve_from c ns (sa ∷ rest) acc =
    resolve_from c ns rest (record_agent sa.name (resolve_swarm_agent_url c sa ns) acc)

-- The URLs by name, the number of ready agents and the number of all.
unfoldable pub resolve_swarm_agents : Cluster → Swarm → (Dict String × ℤ) × ℤ
unfolding resolve_from to_int32
resolve_swarm_agents c sw =
    (resolve_from c sw.namespace sw.spec.agents ([], pos 0), to_int32 (length sw.spec.agents))

abbrev pub swarm_key : Swarm → NamespacedName
swarm_key sw = record { name = sw.name; namespace = sw.namespace }

unfoldable pub references_agent : NamespacedName → Swarm → Bool
unfolding get_namespace_with_default
references_agent key sw =
    any (λ (sa : SwarmAgent). refers_to key sw.namespace sa.agent_ref) sw.spec.agents

-- `none`: the swarms could not be listed
unfoldable pub find_swarms_referencing_agent : Option (List Swarm) → Agent → List NamespacedName
unfolding references_agent
find_swarms_referencing_agent none updated = []
find_swarms_referencing_agent (some []) updated = []
find_swarms_referencing_agent (some (sw ∷ rest)) updated =
    let later = find_swarms_referencing_agent (some rest) updated in
    if references_agent (agent_key updated) sw then swarm_key sw ∷ later else later
