-- ===== src/Reconcile/Objects.antt =====
-- A round of the agent controller with the bodies of ensureDeployment and ensureService, over what
-- the API server gives and answers.
use ronak_agentk_runtime.Base.{String, Option, none, some, Result, ok, err, Fetched}
use Prim.Native.String.{◌++◌}
use ronak_agentk_runtime.Api.Agent.{Agent}
use ronak_agentk_runtime.Refs.SubAgents.{resolve_all_sub_agents}
use ronak_agentk_runtime.Refs.Tools.{resolve_all_tools}
use ronak_agentk_runtime.Refs.Gateways.{resolve_ai_gateway}
use ronak_agentk_runtime.Deploy.Ensure.{AgentDeployment}
use ronak_agentk_runtime.Deploy.Apply.{
  Runtime, AgentService, ServiceWrite, nothing, deleted, written, or_nothing,
  ensure_agent_deployment, ensure_agent_service,
}
use ronak_agentk_runtime.Reconcile.Config.{get_agent_runtime_configuration}
use ronak_agentk_runtime.Reconcile.Step.{Operator, Round}

module _ (o : Operator) where
  -- The objects of an agent in the cluster, and the errors of the writes (`none`: no error).
  pub record Objects : Type 0 where
    pub runtime : Runtime
    pub deployment : Fetched AgentDeployment
    pub service : Fetched AgentService
    pub write_deployment : AgentDeployment → Option String
    pub write_service : AgentService → Option String
    pub delete_service : Option String

  abbrev pub no_error : Option String → Result (Unit {0})
  no_error none = ok tt
  no_error (some m) = err m

  abbrev pub saved_deployment : Objects → Result AgentDeployment → Result (Unit {0})
  saved_deployment w (ok d) = no_error (w.write_deployment d)
  saved_deployment w (err m) = err m

  abbrev deletion_error : Option String → Option String
  deletion_error none = none
  deletion_error (some m) = some ("failed to delete Service: " ++ m)

  abbrev pub saved_service : Objects → Result ServiceWrite → Result (Unit {0})
  saved_service w (ok nothing) = ok tt
  saved_service w (ok deleted) = no_error (deletion_error w.delete_service)
  saved_service w (ok (written s)) = no_error (w.write_service s)
  saved_service w (err m) = err m

  -- The deployment that a round makes, of what it has resolved before.
  unfoldable pub made_deployment : Objects → Round o → Agent → Result AgentDeployment
  made_deployment w r a =
      ensure_agent_deployment w.runtime r.cluster
        (or_nothing (get_agent_runtime_configuration r.pod_namespace r.list_configs)) a
        (resolve_all_sub_agents r.cluster a).0 (resolve_all_tools r.cluster a).0
        (or_nothing (resolve_ai_gateway r.cluster a)) w.deployment

  unfoldable pub made_service : Objects → Agent → Result ServiceWrite
  made_service w a = ensure_agent_service a w.service

  -- The round, its two outcomes computed.
  abbrev pub with_objects : Objects → Round o → Agent → Round o
  with_objects w r a = record r {
    deployment = saved_deployment w (made_deployment w r a);
    service = saved_service w (made_service w a);
  }
