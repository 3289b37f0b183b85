-- ===== src/ToolServers/Gateways.antt =====
-- internal/controller/toolserver_toolgateway.go
use ronak_agentk_runtime.Base.{
  String, Bool, ◌&&◌, Option, none, some, List, [], ◌∷◌, ◌==◌, is_empty, if◌then◌else◌, Result, ok,
  err, Fetched, found, not_found, no_match, failed,
}
use Prim.Native.String.{◌++◌}
use ronak_agentk_runtime.Kube.{ObjectReference, NamespacedName}
use ronak_agentk_runtime.Api.Resources.{ToolServer}
use ronak_agentk_runtime.Refs.Cluster.{show_key, server_key, enqueue_by}

-- api/v1alpha1/toolgateway_types.go; `url` is the status'.
pub record ToolGateway : Type 0 where
  pub name : String
  pub namespace : String
  pub url : String

-- client.Get, and client.List in a namespace
pub record GatewayApi : Type 0 where
  pub get : NamespacedName → Fetched ToolGateway
  pub list : String → Fetched (List ToolGateway)

abbrev pub default_tool_gateway_namespace : String
default_tool_gateway_namespace = "tool-gateway"

-- The key of an explicit reference: an empty namespace is the tool server's own.
abbrev pub tool_gateway_key : ObjectReference → String → NamespacedName
tool_gateway_key ref server_namespace = record {
  name = ref.name;
  namespace = if is_empty ref.namespace then server_namespace else ref.namespace;
}

abbrev or_tool_gateway_error : NamespacedName → Fetched ToolGateway → Result (Option ToolGateway)
or_tool_gateway_error key (found g) = ok (some g)
or_tool_gateway_error key no_match = err "ToolGateway CRD is not installed in the cluster"
or_tool_gateway_error key not_found =
    err ("failed to resolve ToolGateway " ++ (show_key key ++ ": not found"))
or_tool_gateway_error key (failed m) =
    err ("failed to resolve ToolGateway " ++ (show_key key ++ (": " ++ m)))

unfoldable pub resolve_explicit_tool_gateway :
    GatewayApi → ObjectReference → String → Result (Option ToolGateway)
resolve_explicit_tool_gateway api ref server_namespace =
    let key = tool_gateway_key ref server_namespace in or_tool_gateway_error key (api.get key)

-- No gateway is no error; of several the first is taken.
abbrev first_tool_gateway : Fetched (List ToolGateway) → Result (Option ToolGateway)
first_tool_gateway (found []) = ok none
first_tool_gateway (found (g ∷ _)) = ok (some g)
first_tool_gateway no_match = ok none
first_tool_gateway not_found =
    err "failed to list ToolGateways in namespace tool-gateway: not found"
first_tool_gateway (failed m) = err ("failed to list ToolGateways in namespace tool-gateway: " ++ m)

unfoldable pub resolve_default_tool_gateway : GatewayApi → Result (Option ToolGateway)
resolve_default_tool_gateway api = first_tool_gateway (api.list default_tool_gateway_namespace)

abbrev pub resolve_tool_gateway_ref :
    GatewayApi → Option ObjectReference → String → Result (Option ToolGateway)
resolve_tool_gateway_ref api none ns = resolve_default_tool_gateway api
resolve_tool_gateway_ref api (some ref) ns = resolve_explicit_tool_gateway api ref ns

unfoldable pub resolve_tool_gateway : GatewayApi → ToolServer → Result (Option ToolGateway)
unfolding resolve_default_tool_gateway resolve_explicit_tool_gateway
resolve_tool_gateway api t = resolve_tool_gateway_ref api t.spec.tool_gateway_ref t.namespace

-- `shouldReconcile`
abbrev pub uses_tool_gateway : ToolGateway → Option ObjectReference → String → Bool
uses_tool_gateway g none server_namespace = g.namespace == default_tool_gateway_namespace
uses_tool_gateway g (some ref) server_namespace =
    (ref.name == g.name)
    && ((if is_empty ref.namespace then server_namespace else ref.namespace) == g.namespace)

unfoldable pub references_tool_gateway : ToolGateway → ToolServer → Bool
references_tool_gateway g t = uses_tool_gateway g t.spec.tool_gateway_ref t.namespace

-- `none`: the list of tool servers cannot be read.
unfoldable pub find_tool_servers_referencing_tool_gateway :
    Option (List ToolServer) → ToolGateway → List NamespacedName
unfolding references_tool_gateway
find_tool_servers_referencing_tool_gateway none updated = []
find_tool_servers_referencing_tool_gateway (some servers) updated =
    enqueue_by server_key (references_tool_gateway updated) servers
