-- ===== src/Reconcile/Served.antt =====
-- A ready agent is served.
use ronak_agentk_runtime.Base.{
  ℕ, String, true, Option, none, some, List, [], ◌∷◌, ◌≡◌, ◌≢◌, refl, sym, Result, ok, err, is_ok,
  Fetched, found, Dict, not_found, no_match, failed,
}
use mathlib.Core.Path.{subst}
use ronak_agentk_runtime.Kube.{EnvVar}
use ronak_agentk_runtime.Api.Agent.{Agent, AgentProtocol}
use ronak_agentk_runtime.Refs.Cluster.{Cluster, AiGateway}
use ronak_agentk_runtime.Refs.SubAgents.{ResolvedSubAgent, resolve_all_sub_agents}
use ronak_agentk_runtime.Refs.Tools.{ResolvedTool, resolve_all_tools}
use ronak_agentk_runtime.Refs.Gateways.{resolve_ai_gateway}
use ronak_agentk_runtime.Pods.Env.{merge_environment_variables}
use ronak_agentk_runtime.Deploy.Template.{build_template_environment_vars}
use ronak_agentk_runtime.Deploy.Ensure.{AgentDeployment, Inputs, configure_deployment}
use ronak_agentk_runtime.Deploy.Apply.{
  Runtime, AgentService, written, inputs_of, mutate_deployment, ensure_agent_deployment,
  ensure_agent_service, or_nothing, url_of, configure_service, new_deployment, with_template_env,
  service_for, new_service,
}
use ronak_agentk_runtime.Deploy.Routed.{IsServed, configure_service-IsServed}
use ronak_agentk_runtime.Reconcile.Config.{
  AgentRuntimeConfiguration, get_agent_runtime_configuration,
}
use ronak_agentk_runtime.Reconcile.Step.{Operator, Round, reconcile}
use ronak_agentk_runtime.Reconcile.Gate.{IsReady, reconcile-IsReady_iff}
use ronak_agentk_runtime.Reconcile.Objects.{
  Objects, no_error, saved_deployment, saved_service, made_deployment, made_service, with_objects,
}

module _ (r : Runtime) (c : Cluster) (config : Option AgentRuntimeConfiguration) (a : Agent) where
  -- A deployment that a round makes of the template's variables.
  pub record IsMade (built : Result (List EnvVar)) (d : AgentDeployment) : Type 0 where
    pub room : ℕ
    pub old : AgentDeployment
    pub template_env : List EnvVar
    pub from : built ≡ ok template_env
    pub made :
        d
        ≡ configure_deployment r.marshal_programs r.new_room room a
            (inputs_of r c config a template_env)
            old

  with_template_env-IsMade :
      (room : ℕ) (old : AgentDeployment) (built : Result (List EnvVar)) {d : AgentDeployment}
      → with_template_env r c config a room old built ≡ ok d
      → IsMade built d
  with_template_env-IsMade room old (ok env) h = record {
    room = room;
    old = old;
    template_env = env;
    from = refl;
    made = cc h;
  }
  with_template_env-IsMade room old (err m) h = cc

  -- The variables of the template, of what the round has resolved.
  abbrev pub built_env :
      Dict ResolvedSubAgent → Dict ResolvedTool → Option AiGateway → Result (List EnvVar)
  built_env subs tools gateway =
      build_template_environment_vars r.marshal_sub_agents r.marshal_tools a subs tools
        (url_of gateway)

  ensure_agent_deployment-IsMade :
      (subs : Dict ResolvedSubAgent) (tools : Dict ResolvedTool) (gateway : Option AiGateway)
      (old : Fetched AgentDeployment) {d : AgentDeployment}
      → ensure_agent_deployment r c config a subs tools gateway old ≡ ok d
      → IsMade (built_env subs tools gateway) d
  unfolding ensure_agent_deployment mutate_deployment
  ensure_agent_deployment-IsMade subs tools gateway (found old) h =
      with_template_env-IsMade r.room old _ h
  ensure_agent_deployment-IsMade subs tools gateway not_found h =
      with_template_env-IsMade 0 new_deployment _ h
  ensure_agent_deployment-IsMade subs tools gateway no_match h = cc
  ensure_agent_deployment-IsMade subs tools gateway (failed m) h = cc

module _ (o : Operator) (w : Objects o) (r : Round o) (a : Agent) where
  -- The round wrote a deployment and a service without an error, and they fit together.
  pub record IsServing : Type 0 where
    pub deployment : AgentDeployment
    pub inputs : Inputs
    pub template_env : List EnvVar
    pub service : AgentService
    pub made : made_deployment o w r a ≡ ok deployment
    pub deployment_written : w.write_deployment deployment ≡ none
    pub served : made_service o w a ≡ ok (written service)
    pub service_written : w.write_service service ≡ none
    pub env_built :
        build_template_environment_vars w.runtime.marshal_sub_agents w.runtime.marshal_tools a
          (resolve_all_sub_agents r.cluster a).0
          (resolve_all_tools r.cluster a).0
          (url_of (or_nothing (resolve_ai_gateway r.cluster a)))
        ≡ ok template_env
    pub env_merged :
        inputs.env ≡ merge_environment_variables w.runtime.sort_slice template_env a.spec.env
    pub fits : IsServed inputs deployment service

  no_error-none : (x : Option String) → is_ok (no_error o x) ≡ true → x ≡ none
  no_error-none none h = refl
  no_error-none (some m) h = cc

  saved_deployment-ok :
      (m : Result AgentDeployment)
      → is_ok (saved_deployment o w m) ≡ true
      → (d : AgentDeployment) × (m ≡ ok d) × (w.write_deployment d ≡ none)
  saved_deployment-ok (ok d) h = (d, refl, no_error-none _ h)
  saved_deployment-ok (err m) h = cc

  -- Where there is a protocol, the service is written.
  saved_service-ok :
      (ps : List AgentProtocol) (old : Fetched AgentService)
      → ps ≢ []
      → is_ok (saved_service o w (service_for ps a old)) ≡ true
      → (s : AgentService) × (service_for ps a old ≡ ok (written (configure_service a s)))
        × (w.write_service (configure_service a s) ≡ none)
  saved_service-ok [] old ne h = absurd (ne refl)
  saved_service-ok (p ∷ ps) (found s) ne h = (s, refl, no_error-none _ h)
  saved_service-ok (p ∷ ps) not_found ne h = (new_service, refl, no_error-none _ h)
  saved_service-ok (p ∷ ps) no_match ne h = cc
  saved_service-ok (p ∷ ps) (failed m) ne h = cc

  -- A round of the agent controller that ends with the status ready, for an agent with at least
  -- one protocol, has written its deployment and its service without an error, and the two fit:
  -- the deployment's container named agent has the environment that merges the user's variables
  -- into the template's, which is built of the sub-agents, tools and gateway that the round
  -- resolved; the service's selector picks the pods, and its target ports are the container's
  -- ports, with their names and in order.
  pub reconcile-IsServing :
      IsReady o (with_objects o w r a) a (reconcile o (with_objects o w r a) a)
      → a.spec.protocols ≢ []
      → IsServing
  unfolding made_deployment made_service ensure_agent_service
  reconcile-IsServing ready protocols =
      let steps = (reconcile-IsReady_iff o (with_objects o w r a) a).0 ready in
      let (d, made, deployed) = saved_deployment-ok (made_deployment o w r a) steps.deployment in
      let (s, served, written') =
        saved_service-ok a.spec.protocols w.service protocols steps.service in
      let config = or_nothing (get_agent_runtime_configuration r.pod_namespace r.list_configs) in
      let m = ensure_agent_deployment-IsMade w.runtime r.cluster config a _ _ _ w.deployment made in
      let i = inputs_of w.runtime r.cluster config a m.template_env in
      record {
        deployment = d;
        inputs = i;
        template_env = m.template_env;
        env_built = m.from;
        env_merged = unfold inputs_of in refl;
        service = configure_service a s;
        made = made;
        deployment_written = deployed;
        served = served;
        service_written = written';
        fits =
            subst (λ (x : AgentDeployment). IsServed i x (configure_service a s)) (sym m.made)
              (configure_service-IsServed w.runtime.marshal_programs w.runtime.new_room m.room a i
                m.old s);
      }
