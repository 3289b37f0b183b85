-- ===== src/Refs/Tools.antt =====
-- internal/controller/agent_tool.go
use ronak_agentk_runtime.Base.{
  String, Bool, Option, none, some, List, [], ◌∷◌, ◌++◌, Dict, insert, is_empty, non_empty,
  if◌then◌else◌, any, Result, ok, err, Fetched,
}
use Prim.Native.String
use ronak_agentk_runtime.Kube.{ObjectReference, NamespacedName}
use ronak_agentk_runtime.Api.Agent.{Agent, AgentTool}
use ronak_agentk_runtime.Api.Resources.{ToolServer}
use ronak_agentk_runtime.Refs.Cluster.{
  Cluster, get_namespace_with_default, target, show_key, or_error, quote,
}
use ronak_agentk_runtime.Refs.SubAgents.{or_issues, refers_to, enqueue}

pub record ResolvedTool : Type 0 where
  pub url : String
  pub propagated_headers : List String

-- The gateway's URL where there is one, else the direct URL.
abbrev pub server_url : NamespacedName → Result ToolServer → Result String
server_url key (err m) = err m
server_url key (ok t) =
    if non_empty t.status.gateway_url
    then ok t.status.gateway_url
    else if is_empty t.status.url
    then err
        (String.◌++◌ "ToolServer " (String.◌++◌ (show_key key) " has no URL in its Status field"))
    else ok t.status.url

abbrev pub resolve_server :
    (NamespacedName → Fetched ToolServer) → Option ObjectReference → String → Result String
resolve_server get none parent_namespace = err "tool has neither url nor toolServerRef specified"
resolve_server get (some ref) parent_namespace =
    let key = target ref parent_namespace in
    server_url key (
      or_error (String.◌++◌ "failed to resolve ToolServer " (String.◌++◌ (show_key key) ": "))
        (get key))

unfoldable pub resolve_tool_server_url : Cluster → AgentTool → String → Result String
unfolding get_namespace_with_default
resolve_tool_server_url c t parent_namespace =
    if non_empty t.url
    then ok t.url
    else resolve_server c.get_tool_server t.tool_server_ref parent_namespace

abbrev record_tool :
    AgentTool → Result String → Dict ResolvedTool × List String → Dict ResolvedTool × List String
record_tool t (ok url) (resolved, issues) = (
  insert t.name (record { url = url; propagated_headers = t.propagated_headers }) resolved,
  issues,
)
record_tool t (err m) (resolved, issues) = (
  resolved,
  issues ++ (String.◌++◌ "tool " (String.◌++◌ (quote t.name) (String.◌++◌ ": " m))) ∷ [],
)

unfoldable pub resolve_tools :
    Cluster
    → String
    → List AgentTool
    → Dict ResolvedTool × List String
    → Dict ResolvedTool × List String
resolve_tools c ns [] acc = acc
resolve_tools c ns (t ∷ rest) acc =
    resolve_tools c ns rest (record_tool t (resolve_tool_server_url c t ns) acc)

unfoldable pub resolve_all_tools : Cluster → Agent → Dict ResolvedTool × Option String
unfolding resolve_tools
resolve_all_tools c a = or_issues " tool(s): " (resolve_tools c a.namespace a.spec.tools ([], []))

unfoldable pub references_tool_server : NamespacedName → Agent → Bool
unfolding get_namespace_with_default
references_tool_server key a =
    any (λ (t : AgentTool). refers_to key a.namespace t.tool_server_ref) a.spec.tools

unfoldable pub find_agents_referencing_tool_server :
    Option (List Agent) → ToolServer → List NamespacedName
unfolding references_tool_server
find_agents_referencing_tool_server none updated = []
find_agents_referencing_tool_server (some agents) updated =
    enqueue (references_tool_server (record { name = updated.name; namespace = updated.namespace }))
      agents
