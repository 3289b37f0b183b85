-- ===== src/ToolServers/Watch.antt =====
-- The watch of the tool server controller on gateways.
use ronak_agentk_runtime.Base.{
  String, false, Option, none, some, List, ◌≡◌, ◌≢◌, inl, inr, Bool-cases, arith, eq_iff, ◌==◌,
}
use mathlib.Core.List.{Memᴰ}
use ronak_agentk_runtime.Kube.{ObjectReference}
use ronak_agentk_runtime.Api.Resources.{ToolServer}
use ronak_agentk_runtime.Refs.Cluster.{server_key}
use ronak_agentk_runtime.Refs.Wakeups.{AgreeExcept, enqueue_by-mem}
use ronak_agentk_runtime.ToolServers.Gateways.{
  ToolGateway, GatewayApi, default_tool_gateway_namespace, tool_gateway_key,
  resolve_default_tool_gateway, resolve_explicit_tool_gateway, resolve_tool_gateway_ref,
  resolve_tool_gateway, uses_tool_gateway, references_tool_gateway,
  find_tool_servers_referencing_tool_gateway,
}

-- Two states of the API server that differ in one gateway and in the list of its namespace.
abbrev pub DifferAt : ToolGateway → GatewayApi → GatewayApi → Type 0
DifferAt g api api' =
    AgreeExcept (record { name = g.name; namespace = g.namespace }) api.get api'.get
    × ((ns : String) → (ns == g.namespace) ≡ false → api.list ns ≡ api'.list ns)

resolve_tool_gateway_ref-same :
    (g : ToolGateway) (api api' : GatewayApi) (ref : Option ObjectReference) (ns : String)
    → DifferAt g api api'
    → uses_tool_gateway g ref ns ≡ false
    → resolve_tool_gateway_ref api ref ns ≡ resolve_tool_gateway_ref api' ref ns
unfolding resolve_default_tool_gateway resolve_explicit_tool_gateway
resolve_tool_gateway_ref-same g api api' none ns agree h =
    let away : (default_tool_gateway_namespace == g.namespace) ≡ false = ground (
      arith,
      h,
      eq_iff g.namespace default_tool_gateway_namespace,
      eq_iff default_tool_gateway_namespace g.namespace,
    ) in
    rw (agree.1 default_tool_gateway_namespace away)
resolve_tool_gateway_ref-same g api api' (some ref) ns agree h =
    rw (agree.0 (tool_gateway_key ref ns) h)

-- If the change of one tool gateway, with the other gateways and the lists of the other namespaces
-- unchanged, changes the gateway that a listed tool server resolves to, explicitly or by default,
-- then the watch on gateways enqueues that tool server.
pub find_tool_servers_referencing_tool_gateway-complete :
    (api api' : GatewayApi) (updated : ToolGateway) (t : ToolServer) (servers : List ToolServer)
    → DifferAt updated api api'
    → Memᴰ t servers
    → resolve_tool_gateway api t ≢ resolve_tool_gateway api' t
    → Memᴰ (server_key t) (find_tool_servers_referencing_tool_gateway (some servers) updated)
unfolding find_tool_servers_referencing_tool_gateway resolve_tool_gateway references_tool_gateway
find_tool_servers_referencing_tool_gateway-complete api api' updated t servers agree m changed =
    elim (Bool-cases (references_tool_gateway updated t)) [
      | inl h ↦ enqueue_by-mem server_key (references_tool_gateway updated) t m h
      | inr h ↦ absurd (
          changed (
            resolve_tool_gateway_ref-same updated api api' t.spec.tool_gateway_ref t.namespace agree
              h))
    ]
