-- ===== src/ToolServers/Failed.antt =====
-- What a failed round of the tool server controller leaves in the status.
use ronak_agentk_runtime.Base.{
  String, true, false, ◌∙◌, Option, none, some, List, ◌≡◌, ◌⊎◌, inl, inr, refl, Result, ok, err,
  found,
}
use Prim.Native.String.{◌++◌}
use ronak_agentk_runtime.Api.Agent.{Condition}
use ronak_agentk_runtime.Api.Resources.{ToolServer, ToolServerStatus}
use ronak_agentk_runtime.ToolServers.Gateways.{ToolGateway, resolve_tool_gateway}
use ronak_agentk_runtime.ToolServers.Objects.{
  new_server_deployment, new_server_service, ensure_server_deployment, ensure_server_service,
}
use ronak_agentk_runtime.ToolServers.Reconcile.{
  ServerRound, ServerOutcome, after_gateway, after_deployment, after_service, update_error,
  create_or_update, update_tool_server_status_ready, update_tool_server_status_not_ready,
  reconcile_tool_server,
}

module _ (set_status_condition : List Condition → Condition → List Condition) (w : ServerRound)
    (t : ToolServer) where
  -- A condition that says why the round failed: for its deployment or for its service.
  abbrev complaint : String → String → Condition
  complaint reason m = record {
    kind = "Ready";
    status = false;
    reason = reason;
    message = m;
    observed_generation = t.generation;
  }

  -- The errors of making or updating the deployment and the service.
  abbrev pub deployment_error : Option String
  deployment_error =
      create_or_update (ensure_server_deployment t) new_server_deployment w.write_deployment
        w.deployment

  abbrev pub service_error : Option String
  service_error =
      create_or_update (ensure_server_service t) new_server_service w.write_service w.service

  -- The reason names what failed.
  abbrev Stage : String → String → Type 0
  Stage reason m =
      ((reason ≡ "DeploymentFailed") × (deployment_error ≡ some m))
      ⊎ ((reason ≡ "ServiceFailed") × (service_error ≡ some m))

  -- A status that holds the condition, without a gateway and with the URL it had.
  pub record SaysWhy (m : String) (o : ServerOutcome) : Type 0 where
    pub reason : String
    pub status : ToolServerStatus
    pub stage : Stage reason m
    pub handed : o.written ≡ some status
    pub complains :
        status.conditions ≡ set_status_condition t.status.conditions (complaint reason m)
    pub url : status.url ≡ t.status.url
    pub no_gateway_url : status.gateway_url ≡ ""
    pub no_gateway : status.tool_gateway_ref ≡ none

  not_ready-SaysWhy :
      (reason m n : String)
      → Stage reason m
      → some n ≡ some m
      → SaysWhy m (record {
        written = some (update_tool_server_status_not_ready set_status_condition t reason n);
        error = some n;
      })
  unfolding update_tool_server_status_not_ready
  not_ready-SaysWhy reason m n stage e = record {
    reason = reason;
    status = update_tool_server_status_not_ready set_status_condition t reason n;
    stage = stage;
    handed = refl;
    complains = cc e;
    url = refl;
    no_gateway_url = refl;
    no_gateway = refl;
  }

  abbrev praise : Condition
  praise = record {
    kind = "Ready";
    status = true;
    reason = "Reconciled";
    message = "ToolServer is ready";
    observed_generation = t.generation;
  }

  -- The ready status, whose own write failed.
  pub record IsUnwritten (m : String) (o : ServerOutcome) : Type 0 where
    pub status : ToolServerStatus
    pub why : String
    pub handed : o.written ≡ some status
    pub praises : status.conditions ≡ set_status_condition t.status.conditions praise
    pub refused : w.write_status status ≡ some why
    pub told : m ≡ "failed to update toolserver status: " ++ why

  -- Nothing is written, as the gateway could not be resolved.
  abbrev pub IsSilent : String → ServerOutcome → Type 0
  IsSilent m o = (o.written ≡ none) × (resolve_tool_gateway w.gateways t ≡ err m)

  write_failed :
      (s : Option String) (m : String)
      → update_error s ≡ some m
      → (why : String) × (s ≡ some why) × (m ≡ "failed to update toolserver status: " ++ why)
  write_failed none m e = cc e
  write_failed (some why) m e = (why, refl, cc e)

  after_service-failed :
      (g : Option ToolGateway) (o : Option String) (m : String)
      → service_error ≡ o
      → (after_service set_status_condition w t g o).error ≡ some m
      → SaysWhy m (after_service set_status_condition w t g o)
        ⊎ IsUnwritten m (after_service set_status_condition w t g o)
  unfolding update_tool_server_status_ready
  after_service-failed g (some n) m h e =
      inl (not_ready-SaysWhy "ServiceFailed" m n (inr (refl, h ∙ e)) e)
  after_service-failed g none m h e =
      let s = update_tool_server_status_ready set_status_condition t g in
      let f = write_failed (w.write_status s) m e in
      inr
        (record { status = s; why = f.0; handed = refl; praises = refl; refused = f.1; told = f.2 })

  after_deployment-failed :
      (g : Option ToolGateway) (o : Option String) (m : String)
      → deployment_error ≡ o
      → (after_deployment set_status_condition w t g o).error ≡ some m
      → SaysWhy m (after_deployment set_status_condition w t g o)
        ⊎ IsUnwritten m (after_deployment set_status_condition w t g o)
  after_deployment-failed g (some n) m h e =
      inl (not_ready-SaysWhy "DeploymentFailed" m n (inl (refl, h ∙ e)) e)
  after_deployment-failed g none m h e = after_service-failed g _ m refl e

  after_gateway-failed :
      (r : Result (Option ToolGateway)) (m : String)
      → (after_gateway set_status_condition w t r).error ≡ some m
      → ((r ≡ err m) × ((after_gateway set_status_condition w t r).written ≡ none))
        ⊎ (SaysWhy m (after_gateway set_status_condition w t r)
            ⊎ IsUnwritten m (after_gateway set_status_condition w t r))
  after_gateway-failed (err n) m e = inl (cc e, refl)
  after_gateway-failed (ok g) m e = inr (after_deployment-failed g _ m refl e)

  -- If a round of a controller for a tool server that exists ends with an error, then either
  -- nothing was written and resolving the gateway failed with that error; or the status handed to
  -- the update has the URL it had, no gateway, and the conditions that SetStatusCondition makes
  -- with a Ready condition that is false, with the error as its message and the reason
  -- DeploymentFailed or ServiceFailed, where making or updating the object that the reason names
  -- gave that error; or its Ready condition is true, and writing it failed with the error that the
  -- round reports under "failed to update toolserver status: ".
  pub reconcile_tool_server-failed :
      (m : String)
      → (reconcile_tool_server set_status_condition w (found t)).error ≡ some m
      → IsSilent m (reconcile_tool_server set_status_condition w (found t))
        ⊎ (SaysWhy m (reconcile_tool_server set_status_condition w (found t))
            ⊎ IsUnwritten m (reconcile_tool_server set_status_condition w (found t)))
  unfolding reconcile_tool_server
  reconcile_tool_server-failed m e =
      elim (after_gateway-failed (resolve_tool_gateway w.gateways t) m e) [
        | inl (r, silent) ↦ inl (silent, r)
        | inr rest ↦ inr rest
      ]
