-- ===== src/ToolServers/Tests.antt =====
-- Tool servers with a gateway and without.
use ronak_agentk_runtime.Base.{
  Option, none, some, List, [], ◌∷◌, ◌≡◌, ◌⊎◌, refl, if◌then◌else◌, ◌==◌, ◌≢◌, found, not_found, ok,
}
use mathlib.Core.List.{Memᴰ}
use ronak_agentk_runtime.Api.Agent.{Condition}
use ronak_agentk_runtime.Api.Resources.{ToolServer, ToolServerStatus}
use ronak_agentk_runtime.Samples.{plain_server, empty_cluster, only, server_tool, in_default}
use ronak_agentk_runtime.Refs.Cluster.{Cluster, get_namespace_with_default}
use ronak_agentk_runtime.Refs.Tools.{resolve_tool_server_url}
use ronak_agentk_runtime.ToolServers.Gateways.{
  ToolGateway, GatewayApi, resolve_tool_gateway, find_tool_servers_referencing_tool_gateway,
  resolve_default_tool_gateway,
}
use ronak_agentk_runtime.ToolServers.Reconcile.{
  ServerRound, reconcile_tool_server, update_tool_server_status_ready,
}
use ronak_agentk_runtime.ToolServers.Watch.{
  DifferAt, find_tool_servers_referencing_tool_gateway-complete,
}
use ronak_agentk_runtime.ToolServers.Failed.{
  SaysWhy, IsUnwritten, IsSilent, reconcile_tool_server-failed,
}
use ronak_agentk_runtime.ToolServers.Resolved.{reached_at, reconcile_tool_server-resolves}

abbrev search : ToolServer
search = plain_server ""

abbrev gateway : ToolGateway
gateway = record { name = "gw"; namespace = "tool-gateway"; url = "http://gw" }

abbrev without_gateway : GatewayApi
without_gateway = record { get = λ k. not_found; list = λ ns. found [] }

abbrev gateway_listed : GatewayApi
gateway_listed = record {
  get = λ k. not_found;
  list = λ ns. if ns == "tool-gateway" then found (gateway ∷ []) else found [];
}

differ : DifferAt gateway without_gateway gateway_listed
differ = (λ k h. refl, λ ns h. rw h refl)

changes : resolve_tool_gateway without_gateway search ≢ resolve_tool_gateway gateway_listed search
unfolding resolve_tool_gateway resolve_default_tool_gateway
changes h = cc h

find_tool_servers_referencing_tool_gateway-complete_example :
    Memᴰ
      (in_default "search")
      (find_tool_servers_referencing_tool_gateway (some (search ∷ [])) gateway)
find_tool_servers_referencing_tool_gateway-complete_example =
    find_tool_servers_referencing_tool_gateway-complete without_gateway gateway_listed gateway
      search (search ∷ []) differ (Memᴰ.head refl) changes

abbrev round : ServerRound
round = record {
  gateways = gateway_listed;
  deployment = not_found;
  service = not_found;
  write_deployment = λ d. none;
  write_service = λ s. none;
  write_status = λ s. none;
}

abbrev last_condition : List Condition → Condition → List Condition
last_condition old c = c ∷ []

abbrev written : ToolServerStatus
written = update_tool_server_status_ready last_condition search (some gateway)

abbrev served : Cluster
served = record empty_cluster {
  get_tool_server = only "search" (record search { status = written });
}

reconcile_tool_server-resolves_example :
    (g : Option ToolGateway) × (resolve_tool_gateway gateway_listed search ≡ ok g)
    × (resolve_tool_server_url served (server_tool "search") "default" ≡ ok (reached_at search g))
unfolding reconcile_tool_server get_namespace_with_default
reconcile_tool_server-resolves_example =
    reconcile_tool_server-resolves last_condition round search written served (server_tool "search")
      (record { name = "search"; namespace = "" }) "default" refl refl refl refl refl refl

abbrev conflicting : ServerRound
conflicting = record round { write_deployment = λ d. some "conflict" }

reconcile_tool_server-failed_example :
    IsSilent last_condition conflicting search "conflict"
      (reconcile_tool_server last_condition conflicting (found search))
    ⊎ (SaysWhy last_condition conflicting search "conflict"
          (reconcile_tool_server last_condition conflicting (found search))
        ⊎ IsUnwritten last_condition conflicting search "conflict"
            (reconcile_tool_server last_condition conflicting (found search)))
unfolding reconcile_tool_server
reconcile_tool_server-failed_example =
    reconcile_tool_server-failed last_condition conflicting search "conflict" refl
