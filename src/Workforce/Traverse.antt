-- ===== src/Workforce/Traverse.antt =====
-- traverseAgent and collectTransitiveAgentsAndTools. The recursion takes fuel; that the number of
-- agents suffices is proved in Collect. An error is only logged by every caller, so it is not
-- passed on.
use ronak_agentk_runtime.Base.{
  ℕ, zero, suc, String, Bool, true, false, Option, none, some, List, [], ◌∷◌, Dict, insert, lookup,
  is_some, non_empty, if◌then◌else◌, Fetched, found, map,
}
use ronak_agentk_runtime.Kube.{ObjectReference, NamespacedName}
use ronak_agentk_runtime.Api.Agent.{Agent, SubAgent, AgentTool}
use ronak_agentk_runtime.Api.Resources.{TransitiveAgent, AgenticWorkforce}
use ronak_agentk_runtime.Refs.Cluster.{Cluster, get_namespace_with_default, target, show_key}

-- The two maps that the traversal fills, keyed by text.
pub record Walk : Type 0 where
  pub agents : Dict TransitiveAgent
  pub tools : Dict Bool

-- `_, exists := m[k]`
abbrev pub has {ℓ} : {V : Type ℓ} → String → Dict V → Bool
has k m = is_some (lookup k m)

abbrev pub cluster_agent : NamespacedName → TransitiveAgent
cluster_agent k = record { name = k.name; namespace = k.namespace; url = "" }

abbrev pub remote_agent : SubAgent → TransitiveAgent
remote_agent s = record { name = s.name; namespace = ""; url = s.url }

abbrev pub mark : NamespacedName → Walk → Walk
mark k w = record w { agents = insert (show_key k) (cluster_agent k) w.agents }

-- The key under which a tool is recorded, if any.
abbrev pub tool_key : String → Option ObjectReference → String → Option String
tool_key ns (some ref) url = some (show_key (target ref ns))
tool_key ns none url = if non_empty url then some url else none

abbrev pub add_tool : Option String → Dict Bool → Dict Bool
add_tool none tools = tools
add_tool (some k) tools = insert k true tools

unfoldable pub collect_tools : String → List AgentTool → Dict Bool → Dict Bool
collect_tools ns [] tools = tools
collect_tools ns (t ∷ rest) tools =
    collect_tools ns rest (add_tool (tool_key ns t.tool_server_ref t.url) tools)

-- One sub-agent: a cluster agent is traversed, a remote one is recorded under its URL.
abbrev pub visit_sub :
    (NamespacedName → Walk → Walk) → String → SubAgent → Option ObjectReference → Walk → Walk
visit_sub visit ns s (some ref) w = visit (target ref ns) w
visit_sub visit ns s none w =
    if non_empty s.url then record w { agents = insert s.url (remote_agent s) w.agents } else w

unfoldable pub traverse_subs : (NamespacedName → Walk → Walk) → String → List SubAgent → Walk → Walk
traverse_subs visit ns [] w = w
traverse_subs visit ns (s ∷ rest) w =
    traverse_subs visit ns rest (visit_sub visit ns s s.agent_ref w)

-- What follows the fetch of an agent: its tools, then its sub-agents.
abbrev pub expand : (NamespacedName → Walk → Walk) → Fetched Agent → Walk → Walk
expand visit (found a) w =
    traverse_subs visit a.namespace a.spec.sub_agents
      (record w { tools = collect_tools a.namespace a.spec.tools w.tools })
expand visit _ w = w

unfoldable pub traverse_agent : Cluster → ℕ → NamespacedName → Walk → Walk
unfolding get_namespace_with_default
traverse_agent c zero k w = w
traverse_agent c (suc fuel) k w = elim (has (show_key k) w.agents) [
  | true ↦ w
  | false ↦ expand (traverse_agent c fuel) (c.get_agent k) (mark k w)
]

abbrev pub empty_walk : Walk
empty_walk = record { agents = []; tools = [] }

-- The loop over the entry points, which skips nil references.
unfoldable pub traverse_entries : Cluster → ℕ → String → List (Option ObjectReference) → Walk → Walk
traverse_entries c fuel ns [] w = w
traverse_entries c fuel ns (none ∷ rest) w = traverse_entries c fuel ns rest w
traverse_entries c fuel ns (some ref ∷ rest) w =
    traverse_entries c fuel ns rest (traverse_agent c fuel (target ref ns) w)

unfoldable pub collect_walk : Cluster → ℕ → AgenticWorkforce → Walk
unfolding traverse_entries traverse_agent
collect_walk c fuel wf = traverse_entries c fuel wf.namespace wf.entry_point_agents empty_walk

-- The slices that the maps are turned into (in the order of the map, which Go does not fix).
unfoldable pub collect_transitive :
    Cluster → ℕ → AgenticWorkforce → List TransitiveAgent × List String
unfolding collect_walk
collect_transitive c fuel wf =
    let w = collect_walk c fuel wf in (map (λ (k, a). a) w.agents, map (λ (k, b). k) w.tools)
