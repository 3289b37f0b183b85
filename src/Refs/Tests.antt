-- ===== src/Refs/Tests.antt =====
-- Runs of the resolution and of the watches.
use ronak_agentk_runtime.Base.{
  ◌≡◌, ◌≢◌, ℕ, insert, refl, arith, String, Option, some, [], ◌∷◌, found, ◌==◌, ap, length, Dict,
  if◌then◌else◌,
}
use mathlib.Core.List.{Memᴰ}
use ronak_agentk_runtime.Api.Agent.{Agent}
use ronak_agentk_runtime.Api.Resources.{ToolServer}
use ronak_agentk_runtime.Samples.{
  plain_server, plain_agent, in_default, cluster_sub, remote_sub, server_tool, empty_cluster, only,
}
use ronak_agentk_runtime.Refs.Cluster.{
  server_key, Cluster, AiGateway, agent_key, get_namespace_with_default,
}
use ronak_agentk_runtime.Refs.SubAgents.{
  ResolvedSubAgent, resolve_all_sub_agents, resolve_sub_agents, resolve_sub_agent_url,
  find_agents_referencing_sub_agent,
}
use ronak_agentk_runtime.Refs.Tools.{
  ResolvedTool, resolve_all_tools, resolve_tools, resolve_tool_server_url,
  find_agents_referencing_tool_server,
}
use ronak_agentk_runtime.Refs.Gateways.{
  resolve_ai_gateway, resolve_default_ai_gateway, find_agents_referencing_ai_gateway,
}
use ronak_agentk_runtime.Refs.Wakeups.{AgreeExcept, find_agents_referencing_sub_agent-complete}
use ronak_agentk_runtime.Refs.Complete.{
  AgreeOutside, find_agents_referencing_tool_server-complete,
  find_agents_referencing_ai_gateway-complete,
}

-- An agent with a cluster sub-agent, a remote one and a tool.
abbrev parent : Agent
parent = plain_agent "parent" "" (cluster_sub "child" ∷ remote_sub ∷ []) (server_tool "search" ∷ [])

abbrev child : Agent
child = plain_agent "child" "http://child" [] []

abbrev with_child : Cluster
with_child = record empty_cluster { get_agent = only "child" child }

child_agree : AgreeExcept (agent_key child) empty_cluster.get_agent with_child.get_agent
child_agree k h = rw h

child_changes :
    resolve_all_sub_agents empty_cluster parent ≢ resolve_all_sub_agents with_child parent
unfolding resolve_all_sub_agents resolve_sub_agents resolve_sub_agent_url get_namespace_with_default
    insert
child_changes h =
    let sizes : ◌≡◌ {A = ℕ} 1 2 =
      ap (λ (r : Dict ResolvedSubAgent × Option String). length r.0) h in
    omega arith

find_agents_referencing_sub_agent-complete_example :
    Memᴰ (in_default "parent") (find_agents_referencing_sub_agent (some (parent ∷ [])) child)
find_agents_referencing_sub_agent-complete_example =
    find_agents_referencing_sub_agent-complete empty_cluster with_child child parent (parent ∷ [])
      child_agree (Memᴰ.head refl) child_changes

abbrev search_server : ToolServer
search_server = plain_server "http://search"

abbrev with_server : Cluster
with_server = record empty_cluster { get_tool_server = only "search" search_server }

server_agree :
    AgreeExcept (server_key search_server) empty_cluster.get_tool_server with_server.get_tool_server
server_agree k h = rw h

server_changes : resolve_all_tools empty_cluster parent ≢ resolve_all_tools with_server parent
unfolding resolve_all_tools resolve_tools resolve_tool_server_url get_namespace_with_default insert
server_changes h =
    let sizes : ◌≡◌ {A = ℕ} 0 1 = ap (λ (r : Dict ResolvedTool × Option String). length r.0) h in
    omega arith

find_agents_referencing_tool_server-complete_example :
    Memᴰ
      (in_default "parent")
      (find_agents_referencing_tool_server (some (parent ∷ [])) search_server)
find_agents_referencing_tool_server-complete_example =
    find_agents_referencing_tool_server-complete empty_cluster with_server search_server parent
      (parent ∷ []) server_agree (Memᴰ.head refl) server_changes

-- A gateway of the default namespace, which an agent with no reference uses.
abbrev gateway : AiGateway
gateway = record { name = "gw"; namespace = "ai-gateway"; port = 80 }

abbrev gateway_cluster : Cluster
gateway_cluster = record empty_cluster {
  list_ai_gateways = λ ns. found (if ns == "ai-gateway" then gateway ∷ [] else []);
}

gateway_agree : AgreeOutside gateway empty_cluster gateway_cluster
gateway_agree = (λ k h. refl, λ ns h. rw h)

gateway_changes :
    resolve_ai_gateway empty_cluster parent ≢ resolve_ai_gateway gateway_cluster parent
unfolding resolve_ai_gateway resolve_default_ai_gateway
gateway_changes h = cc h

find_agents_referencing_ai_gateway-complete_example :
    Memᴰ (in_default "parent") (find_agents_referencing_ai_gateway (some (parent ∷ [])) gateway)
find_agents_referencing_ai_gateway-complete_example =
    find_agents_referencing_ai_gateway-complete empty_cluster gateway_cluster gateway parent
      (parent ∷ []) gateway_agree (Memᴰ.head refl) gateway_changes
