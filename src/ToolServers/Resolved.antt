-- ===== src/ToolServers/Resolved.antt =====
-- From a tool server's round to the URL that an agent's tool resolves to.
use ronak_agentk_runtime.Base.{
  String, true, Option, none, some, List, ◌≡◌, refl, ◌∙◌, ap, inl, inr, Bool-cases, arith, eq_iff,
  ◌==◌, non_empty, is_empty, not, if◌then◌else◌, Result, ok, err, found,
}
use text.Mathlib.TextLemmas.{cons-append}
use Prim.Native.String.{◌++◌}
use ronak_agentk_runtime.Kube.{ObjectReference}
use ronak_agentk_runtime.Api.Agent.{AgentTool, Condition}
use ronak_agentk_runtime.Api.Resources.{ToolServer, ToolServerStatus}
use ronak_agentk_runtime.Refs.Cluster.{Cluster, target}
use ronak_agentk_runtime.Refs.Tools.{server_url, resolve_tool_server_url}
use ronak_agentk_runtime.ToolServers.Gateways.{ToolGateway, resolve_tool_gateway}
use ronak_agentk_runtime.ToolServers.Reconcile.{
  ServerRound, has_url, cluster_url, gateway_url_of, after_gateway, after_deployment, after_service,
  update_tool_server_status_ready, reconcile_tool_server,
}

-- Where a tool server is reached: through the gateway if it has a URL, else in the cluster.
abbrev pub reached_at : ToolServer → Option ToolGateway → String
reached_at t none = cluster_url t
reached_at t (some g) =
    if non_empty g.url
    then g.url ++ ("/" ++ (t.namespace ++ ("/" ++ (t.name ++ "/mcp"))))
    else cluster_url t

non_empty-append : (a b : String) → non_empty a ≡ true → non_empty (a ++ b) ≡ true
non_empty-append String.[] b h = cc
non_empty-append (String.◌∷◌ c s) b h = elim (Bool-cases (String.◌∷◌ c (s ++ b) == "")) [
  | inl t ↦
      let bad : String.◌∷◌ c (s ++ b) ≡ String.[] = (eq_iff (String.◌∷◌ c (s ++ b)) "").0 t in
      absurd (cc)
  | inr t ↦ ap non_empty (cons-append c s b) ∙ ap not t
]

non_empty-cluster_url : (t : ToolServer) → non_empty (cluster_url t) ≡ true
unfolding cluster_url
non_empty-cluster_url t = non_empty-append "http://" _ refl

resolve_tool_server_url-found :
    (c : Cluster) (tool : AgentTool) (ref : ObjectReference) (ns : String) (t : ToolServer)
    → tool.url ≡ ""
    → tool.tool_server_ref ≡ some ref
    → c.get_tool_server (target ref ns) ≡ found t
    → resolve_tool_server_url c tool ns ≡ server_url (target ref ns) (ok t)
unfolding resolve_tool_server_url
resolve_tool_server_url-found c tool ref ns t no_url is_ref served =
    rw no_url (rw is_ref (rw served refl))

not_empty :
    {u : String}
    → non_empty u ≡ true
    → (e : Result String) → (if is_empty u then e else ok u) ≡ ok u
not_empty h e = ground (arith, h)

module _ (set_status_condition : List Condition → Condition → List Condition) where
  server_url-ready :
      (key : _) (t : ToolServer) (gateway : Option ToolGateway)
      → has_url t.spec.transport_type ≡ true
      → server_url key (
          ok (record t { status = update_tool_server_status_ready set_status_condition t gateway }))
        ≡ ok (reached_at t gateway)
  unfolding update_tool_server_status_ready gateway_url_of
  server_url-ready key t none h = rw h (not_empty (non_empty-cluster_url t) _)
  server_url-ready key t (some g) h = elim (Bool-cases (non_empty g.url)) [
    | inl u ↦ rw u (rw (non_empty-append g.url _ u) refl)
    | inr u ↦ rw u (rw h (not_empty (non_empty-cluster_url t) _))
  ]

  module _ (w : ServerRound) (t : ToolServer) where
    after_service-ready :
        (g : Option ToolGateway) (o : Option String) (s : ToolServerStatus)
        → (after_service set_status_condition w t g o).written ≡ some s
        → (after_service set_status_condition w t g o).error ≡ none
        → s ≡ update_tool_server_status_ready set_status_condition t g
    after_service-ready g none s written e = cc
    after_service-ready g (some m) s written e = cc

    after_deployment-ready :
        (g : Option ToolGateway) (o : Option String) (s : ToolServerStatus)
        → (after_deployment set_status_condition w t g o).written ≡ some s
        → (after_deployment set_status_condition w t g o).error ≡ none
        → s ≡ update_tool_server_status_ready set_status_condition t g
    after_deployment-ready g none s written e = after_service-ready g _ s written e
    after_deployment-ready g (some m) s written e = cc

    -- A round that ends without an error after a status was written wrote the ready one.
    after_gateway-ready :
        (r : Result (Option ToolGateway)) (s : ToolServerStatus)
        → (after_gateway set_status_condition w t r).written ≡ some s
        → (after_gateway set_status_condition w t r).error ≡ none
        → (g : Option ToolGateway) × (r ≡ ok g)
          × (s ≡ update_tool_server_status_ready set_status_condition t g)
    after_gateway-ready (err m) s written e = cc
    after_gateway-ready (ok g) s written e = (g, refl, after_deployment-ready g _ s written e)

  -- From the tool server to the agent: if a round of a tool server's controller wrote a status and
  -- ended without an error, the transport is http or sse, and the API server then serves the tool
  -- server with that status, then the round resolved its gateway without an error, and a tool of
  -- an agent that refers to the tool server and has no URL of its own resolves without an error to
  -- the gateway's URL followed by the server's namespace and name and /mcp, or to the server's
  -- address in the cluster where there is no gateway or it has no URL.
  pub reconcile_tool_server-resolves :
      (w : ServerRound) (t : ToolServer) (s : ToolServerStatus) (c : Cluster) (tool : AgentTool)
      (ref : ObjectReference) (ns : String)
      → (reconcile_tool_server set_status_condition w (found t)).written ≡ some s
      → (reconcile_tool_server set_status_condition w (found t)).error ≡ none
      → has_url t.spec.transport_type ≡ true
      → tool.url ≡ ""
      → tool.tool_server_ref ≡ some ref
      → c.get_tool_server (target ref ns) ≡ found (record t { status = s })
      → (g : Option ToolGateway) × (resolve_tool_gateway w.gateways t ≡ ok g)
        × (resolve_tool_server_url c tool ns ≡ ok (reached_at t g))
  unfolding reconcile_tool_server
  reconcile_tool_server-resolves w t s c tool ref ns written e h no_url is_ref served =
      let (g, resolved, ready) =
        after_gateway-ready w t (resolve_tool_gateway w.gateways t) s written e in
      let given : c.get_tool_server (target ref ns)
          ≡ found (record t { status = update_tool_server_status_ready set_status_condition t g }) =
        served ∙ ap (λ x. found (record t { status = x })) ready in
      (
        g,
        resolved,
        resolve_tool_server_url-found c tool ref ns _ no_url is_ref given
            ∙ server_url-ready (target ref ns) t g h,
      )
