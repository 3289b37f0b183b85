-- ===== src/Sandboxes/Reconcile.antt =====
-- Reconcile and the statuses of internal/controller/toolsandbox_reconciler.go.
-- meta.SetStatusCondition and what the API server answers to the writes are parameters.
use ronak_agentk_runtime.Base.{
  String, Bool, true, false, Option, none, some, List, itoa, Fetched, found, not_found, no_match,
  failed,
}
use Prim.Native.String.{◌++◌}
use ronak_agentk_runtime.Api.Agent.{Condition}
use ronak_agentk_runtime.Api.Resources.{ToolSandbox}
use ronak_agentk_runtime.ToolServers.Objects.{
  ServerDeployment, ServerService, new_server_deployment, new_server_service,
}
use ronak_agentk_runtime.ToolServers.Reconcile.{create_or_update}
use ronak_agentk_runtime.Sandboxes.Objects.{ensure_sandbox_deployment, ensure_sandbox_service}

pub record SandboxStatus : Type 0 where
  pub conditions : List Condition
  pub url : String

-- What a round meets: the sandbox's objects, and the error of each write (or `none`).
pub record SandboxRound : Type 0 where
  pub deployment : Fetched ServerDeployment
  pub service : Fetched ServerService
  pub write_deployment : ServerDeployment → Option String
  pub write_service : ServerService → Option String
  pub write_status : SandboxStatus → Option String

-- The status handed to Status().Update, if any, and the error returned.
pub record SandboxOutcome : Type 0 where
  pub written : Option SandboxStatus
  pub error : Option String

abbrev sandbox_condition : ToolSandbox → Bool → String → String → Condition
sandbox_condition s status reason message = record {
  kind = "Ready";
  status = status;
  reason = reason;
  message = message;
  observed_generation = s.generation;
}

unfoldable pub sandbox_url : ToolSandbox → String
unfolding itoa
sandbox_url s =
    "http://" ++ (s.name ++ ("." ++ (s.namespace ++ (".svc.cluster.local:" ++ itoa s.port))))

abbrev sandbox_update_error : Option String → Option String
sandbox_update_error none = none
sandbox_update_error (some m) = some ("failed to update toolsandbox status: " ++ m)

module _ (set_status_condition : List Condition → Condition → List Condition) where
  unfoldable pub update_sandbox_ready : ToolSandbox → SandboxStatus → SandboxStatus
  unfolding sandbox_url
  update_sandbox_ready s status = record {
    conditions =
        set_status_condition status.conditions
          (sandbox_condition s true "Reconciled" "ToolSandbox is ready");
    url = sandbox_url s;
  }

  unfoldable pub update_sandbox_not_ready :
      ToolSandbox → SandboxStatus → String → String → SandboxStatus
  update_sandbox_not_ready s status reason message = record status {
    conditions = set_status_condition status.conditions (sandbox_condition s false reason message);
  }

  abbrev sandbox_failed : ToolSandbox → SandboxStatus → String → String → SandboxOutcome
  sandbox_failed s status reason m = record {
    written = some (update_sandbox_not_ready s status reason m);
    error = some m;
  }

  abbrev with_service : SandboxRound → ToolSandbox → SandboxStatus → Option String → SandboxOutcome
  with_service w s status (some m) = sandbox_failed s status "ServiceFailed" m
  with_service w s status none =
      let ready = update_sandbox_ready s status in
      record { written = some ready; error = sandbox_update_error (w.write_status ready) }

  abbrev with_deployment :
      SandboxRound → ToolSandbox → SandboxStatus → Option String → SandboxOutcome
  with_deployment w s status (some m) = sandbox_failed s status "DeploymentFailed" m
  with_deployment w s status none =
      with_service w s status
        (create_or_update (ensure_sandbox_service s) new_server_service w.write_service w.service)

  unfoldable pub reconcile_sandbox :
      SandboxRound → Fetched (ToolSandbox × SandboxStatus) → SandboxOutcome
  unfolding ensure_sandbox_deployment ensure_sandbox_service update_sandbox_ready
      update_sandbox_not_ready
  reconcile_sandbox w (found (s, status)) = with_deployment w s status (
      create_or_update (ensure_sandbox_deployment s) new_server_deployment w.write_deployment
        w.deployment)
  reconcile_sandbox w not_found = record { written = none; error = none }
  reconcile_sandbox w no_match = record { written = none; error = some "no matches for kind" }
  reconcile_sandbox w (failed m) = record { written = none; error = some m }
