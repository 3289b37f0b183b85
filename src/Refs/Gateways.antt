-- ===== src/Refs/Gateways.antt =====
-- internal/controller/agent_aigateway.go
use ronak_agentk_runtime.Base.{
  String, Bool, ◌&&◌, Option, none, some, List, [], ◌∷◌, ◌==◌, is_empty, if◌then◌else◌, itoa,
  Result, ok, err, Fetched, found, not_found, no_match, failed,
}
use Prim.Native.String.{◌++◌}
use ronak_agentk_runtime.Kube.{ObjectReference, NamespacedName}
use ronak_agentk_runtime.Api.Agent.{Agent}
use ronak_agentk_runtime.Refs.Cluster.{Cluster, AiGateway, show_key}
use ronak_agentk_runtime.Refs.SubAgents.{enqueue}

abbrev pub default_ai_gateway_namespace : String
default_ai_gateway_namespace = "ai-gateway"

-- The key of an explicit reference: an empty namespace is the agent's own.
abbrev pub gateway_key : ObjectReference → String → NamespacedName
gateway_key ref agent_namespace = record {
  name = ref.name;
  namespace = if is_empty ref.namespace then agent_namespace else ref.namespace;
}

abbrev pub or_gateway_error : NamespacedName → Fetched AiGateway → Result (Option AiGateway)
or_gateway_error key (found g) = ok (some g)
or_gateway_error key no_match = err "AiGateway CRD is not installed in the cluster"
or_gateway_error key not_found =
    err ("failed to resolve AiGateway " ++ show_key key ++ ": not found")
or_gateway_error key (failed m) = err ("failed to resolve AiGateway " ++ show_key key ++ ": " ++ m)

unfoldable pub resolve_explicit_ai_gateway :
    Cluster → ObjectReference → String → Result (Option AiGateway)
resolve_explicit_ai_gateway c ref agent_namespace =
    let key = gateway_key ref agent_namespace in or_gateway_error key (c.get_ai_gateway key)

-- No gateway is no error; of several the first is taken.
abbrev pub first_gateway : Fetched (List AiGateway) → Result (Option AiGateway)
first_gateway (found []) = ok none
first_gateway (found (g ∷ _)) = ok (some g)
first_gateway no_match = ok none
first_gateway not_found = err "failed to list AiGateways in namespace ai-gateway: not found"
first_gateway (failed m) = err ("failed to list AiGateways in namespace ai-gateway: " ++ m)

unfoldable pub resolve_default_ai_gateway : Cluster → Result (Option AiGateway)
resolve_default_ai_gateway c = first_gateway (c.list_ai_gateways default_ai_gateway_namespace)

abbrev pub resolve_gateway_ref :
    Cluster → Option ObjectReference → String → Result (Option AiGateway)
resolve_gateway_ref c none ns = resolve_default_ai_gateway c
resolve_gateway_ref c (some ref) ns = resolve_explicit_ai_gateway c ref ns

unfoldable pub resolve_ai_gateway : Cluster → Agent → Result (Option AiGateway)
unfolding resolve_default_ai_gateway resolve_explicit_ai_gateway
resolve_ai_gateway c a = resolve_gateway_ref c a.spec.ai_gateway_ref a.namespace

unfoldable pub build_ai_gateway_service_url : AiGateway → String
unfolding itoa
build_ai_gateway_service_url g =
    "http://" ++ g.name ++ "." ++ g.namespace ++ ".svc.cluster.local.:" ++ itoa g.port

-- `shouldReconcile`
abbrev pub uses_gateway : AiGateway → Option ObjectReference → String → Bool
uses_gateway g none agent_namespace = g.namespace == default_ai_gateway_namespace
uses_gateway g (some ref) agent_namespace =
    (ref.name == g.name)
    && ((if is_empty ref.namespace then agent_namespace else ref.namespace) == g.namespace)

unfoldable pub references_ai_gateway : AiGateway → Agent → Bool
references_ai_gateway g a = uses_gateway g a.spec.ai_gateway_ref a.namespace

unfoldable pub find_agents_referencing_ai_gateway :
    Option (List Agent) → AiGateway → List NamespacedName
unfolding references_ai_gateway
find_agents_referencing_ai_gateway none updated = []
find_agents_referencing_ai_gateway (some agents) updated =
    enqueue (references_ai_gateway updated) agents
