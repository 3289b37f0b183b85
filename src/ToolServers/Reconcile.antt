-- ===== src/ToolServers/Reconcile.antt =====
-- Reconcile and the statuses of internal/controller/toolserver_reconciler.go.
-- meta.SetStatusCondition and what the API server answers to the writes are parameters.
use ronak_agentk_runtime.Base.{
  String, Bool, true, false, ◌||◌, Option, none, some, List, ◌==◌, non_empty, if◌then◌else◌, itoa,
  Result, ok, err, Fetched, found, not_found, no_match, failed,
}
use Prim.Native.String.{◌++◌}
use ronak_agentk_runtime.Kube.{ObjectReference}
use ronak_agentk_runtime.Api.Agent.{Condition}
use ronak_agentk_runtime.Api.Resources.{ToolServer, ToolServerStatus}
use ronak_agentk_runtime.ToolServers.Gateways.{ToolGateway, GatewayApi, resolve_tool_gateway}
use ronak_agentk_runtime.ToolServers.Objects.{
  ServerDeployment, ServerService, new_server_deployment, new_server_service,
  ensure_server_deployment, ensure_server_service,
}

-- What a round meets: the gateways, the server's objects, and the error of each write (or `none`).
pub record ServerRound : Type 0 where
  pub gateways : GatewayApi
  pub deployment : Fetched ServerDeployment
  pub service : Fetched ServerService
  pub write_deployment : ServerDeployment → Option String
  pub write_service : ServerService → Option String
  pub write_status : ToolServerStatus → Option String

-- The status handed to Status().Update, if any, and the error returned.
pub record ServerOutcome : Type 0 where
  pub written : Option ToolServerStatus
  pub error : Option String

abbrev server_condition : ToolServer → Bool → String → String → Condition
server_condition t status reason message = record {
  kind = "Ready";
  status = status;
  reason = reason;
  message = message;
  observed_generation = t.generation;
}

-- httpTransport or sseTransport
abbrev pub has_url : String → Bool
has_url transport = (transport == "http") || (transport == "sse")

unfoldable pub cluster_url : ToolServer → String
unfolding itoa
cluster_url t =
    "http://"
    ++ (t.name
        ++ ("." ++ (t.namespace ++ (".svc.cluster.local:" ++ (itoa t.spec.port ++ t.spec.path)))))

-- `{gatewayBaseUrl}/{namespace}/{name}/mcp`, where the gateway has a URL
unfoldable pub gateway_url_of : ToolServer → Option ToolGateway → String
gateway_url_of t none = ""
gateway_url_of t (some g) =
    if non_empty g.url then g.url ++ ("/" ++ (t.namespace ++ ("/" ++ (t.name ++ "/mcp")))) else ""

abbrev tool_gateway_ref_of : Option ToolGateway → Option ObjectReference
tool_gateway_ref_of none = none
tool_gateway_ref_of (some g) = some (record { name = g.name; namespace = g.namespace })

-- The error of CreateOrUpdate: the Get's, or the write's.
abbrev pub create_or_update {ℓ} :
    {A : Type ℓ} → (A → A) → A → (A → Option String) → Fetched A → Option String
create_or_update mutate new write (found a) = write (mutate a)
create_or_update mutate new write not_found = write (mutate new)
create_or_update mutate new write no_match = some "no matches for kind"
create_or_update mutate new write (failed m) = some m

abbrev pub update_error : Option String → Option String
update_error none = none
update_error (some m) = some ("failed to update toolserver status: " ++ m)

module _ (set_status_condition : List Condition → Condition → List Condition) where
  unfoldable pub update_tool_server_status_ready :
      ToolServer → Option ToolGateway → ToolServerStatus
  unfolding cluster_url gateway_url_of
  update_tool_server_status_ready t gateway = record {
    conditions =
        set_status_condition t.status.conditions
          (server_condition t true "Reconciled" "ToolServer is ready");
    url = if has_url t.spec.transport_type then cluster_url t else "";
    gateway_url = gateway_url_of t gateway;
    tool_gateway_ref = tool_gateway_ref_of gateway;
  }

  -- The URL stays as it was.
  unfoldable pub update_tool_server_status_not_ready :
      ToolServer → String → String → ToolServerStatus
  update_tool_server_status_not_ready t reason message = record t.status {
    conditions = set_status_condition t.status.conditions (server_condition t false reason message);
    gateway_url = "";
    tool_gateway_ref = none;
  }

  -- A failed write: the error of the status' update is only logged.
  abbrev not_ready : ToolServer → String → String → ServerOutcome
  not_ready t reason m = record {
    written = some (update_tool_server_status_not_ready t reason m);
    error = some m;
  }

  abbrev pub ready : ServerRound → ToolServer → Option ToolGateway → ServerOutcome
  ready w t gateway =
      let s = update_tool_server_status_ready t gateway in
      record { written = some s; error = update_error (w.write_status s) }

  abbrev pub after_service :
      ServerRound → ToolServer → Option ToolGateway → Option String → ServerOutcome
  after_service w t gateway (some m) = not_ready t "ServiceFailed" m
  after_service w t gateway none = ready w t gateway

  abbrev pub after_deployment :
      ServerRound → ToolServer → Option ToolGateway → Option String → ServerOutcome
  after_deployment w t gateway (some m) = not_ready t "DeploymentFailed" m
  after_deployment w t gateway none =
      after_service w t gateway
        (create_or_update (ensure_server_service t) new_server_service w.write_service w.service)

  abbrev pub after_gateway : ServerRound → ToolServer → Result (Option ToolGateway) → ServerOutcome
  after_gateway w t (err m) = record { written = none; error = some m }
  after_gateway w t (ok gateway) = after_deployment w t gateway (
      create_or_update (ensure_server_deployment t) new_server_deployment w.write_deployment
        w.deployment)

  unfoldable pub reconcile_tool_server : ServerRound → Fetched ToolServer → ServerOutcome
  unfolding resolve_tool_gateway ensure_server_deployment ensure_server_service
      update_tool_server_status_ready update_tool_server_status_not_ready
  reconcile_tool_server w (found t) = after_gateway w t (resolve_tool_gateway w.gateways t)
  reconcile_tool_server w not_found = record { written = none; error = none }
  reconcile_tool_server w no_match = record { written = none; error = some "no matches for kind" }
  reconcile_tool_server w (failed m) = record { written = none; error = some m }
