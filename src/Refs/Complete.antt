-- ===== src/Refs/Complete.antt =====
-- The watches on tool servers and AI gateways, as in Wakeups.
use ronak_agentk_runtime.Base.{
  String, false, Option, none, some, List, [], ◌∷◌, ◌==◌, ◌≡◌, ◌≢◌, refl, inl, inr, arith, eq_iff,
  Bool-cases, Fetched, any, Dict,
}
use mathlib.Core.List.{Memᴰ}
use ronak_agentk_runtime.Kube.{ObjectReference, NamespacedName}
use ronak_agentk_runtime.Api.Agent.{Agent, AgentTool}
use ronak_agentk_runtime.Api.Resources.{ToolServer}
use ronak_agentk_runtime.Refs.Cluster.{
  server_key, Cluster, get_namespace_with_default, target, agent_key, AiGateway,
}
use ronak_agentk_runtime.Refs.SubAgents.{refers_to}
use ronak_agentk_runtime.Refs.Tools.{
  ResolvedTool, resolve_server, resolve_tool_server_url, resolve_tools, resolve_all_tools,
  references_tool_server, find_agents_referencing_tool_server,
}
use ronak_agentk_runtime.Refs.Gateways.{
  resolve_ai_gateway, resolve_gateway_ref, uses_gateway, references_ai_gateway, gateway_key,
  find_agents_referencing_ai_gateway, default_ai_gateway_namespace, resolve_default_ai_gateway,
  resolve_explicit_ai_gateway,
}
use ronak_agentk_runtime.Refs.Wakeups.{AgreeExcept, enqueue-mem, or-eq-false}

resolve_server-agree :
    (key : NamespacedName) (get get' : NamespacedName → Fetched ToolServer)
    (ref : Option ObjectReference) (ns : String)
    → AgreeExcept key get get'
    → refers_to key ns ref ≡ false
    → resolve_server get ref ns ≡ resolve_server get' ref ns
resolve_server-agree key get get' none ns agree h = refl
resolve_server-agree key get get' (some ref) ns agree h = rw (agree (target ref ns) h)

resolve_tools-agree :
    (key : NamespacedName) (c c' : Cluster) (ns : String) (tools : List AgentTool)
    (acc : Dict ResolvedTool × List String)
    → AgreeExcept key c.get_tool_server c'.get_tool_server
    → any (λ (t : AgentTool). refers_to key ns t.tool_server_ref) tools ≡ false
    → resolve_tools c ns tools acc ≡ resolve_tools c' ns tools acc
unfolding resolve_tools resolve_tool_server_url get_namespace_with_default
resolve_tools-agree key c c' ns [] acc agree h = refl
resolve_tools-agree key c c' ns (t ∷ rest) acc agree h =
    let (here, later) = or-eq-false _ _ h in
    rw
      (resolve_server-agree key c.get_tool_server c'.get_tool_server t.tool_server_ref ns agree
        here)
      (resolve_tools-agree key c c' ns rest _ agree later)

-- If the change of one tool server, and of nothing else that the API server returns for tool
-- servers, changes the result of resolving the tools of a listed agent, then the watch on tool
-- servers enqueues that agent.
pub find_agents_referencing_tool_server-complete :
    (c c' : Cluster) (updated : ToolServer) (a : Agent) (agents : List Agent)
    → AgreeExcept (server_key updated) c.get_tool_server c'.get_tool_server
    → Memᴰ a agents
    → resolve_all_tools c a ≢ resolve_all_tools c' a
    → Memᴰ (agent_key a) (find_agents_referencing_tool_server (some agents) updated)
unfolding find_agents_referencing_tool_server resolve_all_tools references_tool_server
find_agents_referencing_tool_server-complete c c' updated a agents agree m changed =
    elim (Bool-cases (references_tool_server (server_key updated) a)) [
      | inl t ↦ enqueue-mem (references_tool_server (server_key updated)) a m t
      | inr t ↦ absurd (
          changed (
            rw (
              resolve_tools-agree (server_key updated) c c' a.namespace a.spec.tools ([], []) agree
                t)))
    ]

abbrev pub AgreeOutside : AiGateway → Cluster → Cluster → Type 0
AgreeOutside g c c' =
    AgreeExcept (record { name = g.name; namespace = g.namespace }) c.get_ai_gateway
      c'.get_ai_gateway
    × ((ns : String) → (ns == g.namespace) ≡ false → c.list_ai_gateways ns ≡ c'.list_ai_gateways ns)

resolve_gateway_ref-agree :
    (g : AiGateway) (c c' : Cluster) (ref : Option ObjectReference) (ns : String)
    → AgreeOutside g c c'
    → uses_gateway g ref ns ≡ false
    → resolve_gateway_ref c ref ns ≡ resolve_gateway_ref c' ref ns
unfolding resolve_default_ai_gateway resolve_explicit_ai_gateway
resolve_gateway_ref-agree g c c' none ns agree h =
    let away : (default_ai_gateway_namespace == g.namespace) ≡ false = ground (
      arith,
      h,
      eq_iff g.namespace default_ai_gateway_namespace,
      eq_iff default_ai_gateway_namespace g.namespace,
    ) in
    rw (agree.1 default_ai_gateway_namespace away)
resolve_gateway_ref-agree g c c' (some ref) ns agree h = rw (agree.0 (gateway_key ref ns) h)

-- If the change of one AI gateway, with the other gateways and the lists of the other namespaces
-- unchanged, changes the gateway that a listed agent resolves to, explicitly or by default, then
-- the watch on gateways enqueues that agent.
pub find_agents_referencing_ai_gateway-complete :
    (c c' : Cluster) (updated : AiGateway) (a : Agent) (agents : List Agent)
    → AgreeOutside updated c c'
    → Memᴰ a agents
    → resolve_ai_gateway c a ≢ resolve_ai_gateway c' a
    → Memᴰ (agent_key a) (find_agents_referencing_ai_gateway (some agents) updated)
unfolding find_agents_referencing_ai_gateway resolve_ai_gateway references_ai_gateway
find_agents_referencing_ai_gateway-complete c c' updated a agents agree m changed =
    elim (Bool-cases (references_ai_gateway updated a)) [
      | inl t ↦ enqueue-mem (references_ai_gateway updated) a m t
      | inr t ↦ absurd (
          changed
            (resolve_gateway_ref-agree updated c c' a.spec.ai_gateway_ref a.namespace agree t))
    ]
