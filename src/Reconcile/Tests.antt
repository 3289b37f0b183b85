-- ===== src/Reconcile/Tests.antt =====
-- Runs of the agent controller.
use ronak_agentk_runtime.Base.{
  ℕ, String, none, [], ◌∷◌, List, map, refl, inl, ◌≡◌, ◌↔◌, ◌⊎◌, ok, found, not_found,
}
use ronak_agentk_runtime.Api.Agent.{Agent, AgentSpec}
use ronak_agentk_runtime.Samples.{tenths, empty_cluster, plain_agent, plain_spec}
use ronak_agentk_runtime.Attest.Bars.{bar_free}
use ronak_agentk_runtime.Attest.Checkpoint.{checkpoint_data, roll}
use ronak_agentk_runtime.Attest.Chain.{IsDigest, Collision}
use ronak_agentk_runtime.Attest.Proof.{Provers}
use ronak_agentk_runtime.Reconcile.Step.{Operator, Round, reconcile}
use ronak_agentk_runtime.Refs.SubAgents.{resolve_all_sub_agents, resolve_sub_agents}
use ronak_agentk_runtime.Refs.Tools.{resolve_all_tools, resolve_tools}
use ronak_agentk_runtime.Refs.Gateways.{resolve_ai_gateway}
use ronak_agentk_runtime.Reconcile.Status.{update_agent_status_ready}
use ronak_agentk_runtime.Reconcile.Gate.{IsReady, Succeeds, reconcile-IsReady_iff}
use ronak_agentk_runtime.Deploy.Template.{build_template_environment_vars}
use ronak_agentk_runtime.Deploy.Apply.{
  mutate_deployment, ensure_agent_deployment, ensure_agent_service,
}
use ronak_agentk_runtime.Reconcile.Config.{get_agent_runtime_configuration}
use ronak_agentk_runtime.Reconcile.Objects.{Objects, with_objects, made_deployment, made_service}
use ronak_agentk_runtime.Reconcile.Served.{IsServing, reconcile-IsServing}
use ronak_agentk_runtime.Reconcile.Trail.{
  trail, reconcile_all, reconcile_all-root, reconcile_all-binds,
}

-- Provers that fail, and a hash that maps every text to "d".
abbrev no_provers : Provers
no_provers = record {
  Groth16 = ℕ;
  Plonk = ℕ;
  prove_groth16 = λ g prev data' i. none;
  prove_plonk = λ g prev data' i. none;
}

abbrev toy : Operator
toy = record {
  float = tenths;
  provers = no_provers;
  sha256 = λ s. "d";
  marshal = λ spec. spec.description;
  set_status_condition = λ cs c. c ∷ [];
}

abbrev calm : String → Round toy
calm now = record {
  cluster = empty_cluster;
  pod_namespace = "operator";
  list_configs = λ ns. found [];
  deployment = ok tt;
  service = ok tt;
  write_status = λ s. none;
  now = now;
  age = 100;
  proof_engine = none;
  cost_cache = none;
  new_snark = none;
  new_plonk = none;
}

abbrev agent : Agent
agent = plain_agent "a" "" [] []

reconcile-IsReady_iff_example :
    IsReady toy (calm "t") agent (reconcile toy (calm "t") agent) ↔ Succeeds toy (calm "t") agent
reconcile-IsReady_iff_example = reconcile-IsReady_iff toy (calm "t") agent

abbrev rounds : List (AgentSpec × Round toy)
rounds = (plain_spec [] [], calm "t1") ∷ (plain_spec [] [], calm "t2") ∷ []

abbrev other_rounds : List (AgentSpec × Round toy)
other_rounds = (plain_spec [] [], calm "t3") ∷ (plain_spec [] [], calm "t4") ∷ []

reconcile_all-root_example :
    (reconcile_all toy rounds agent).status.merkle_root
    ≡ roll (λ s. "d") "" (trail toy rounds agent)
reconcile_all-root_example = reconcile_all-root toy rounds agent

toy-IsDigest : (s : String) → IsDigest "d"
unfolding bar_free
toy-IsDigest s = record { free = refl; full = refl }

reconcile_all-binds_example :
    (map checkpoint_data (trail toy rounds agent)
      ≡ map checkpoint_data (trail toy other_rounds agent))
    ⊎ Collision (λ s. "d")
unfolding trail reconcile reconcile_all resolve_all_sub_agents resolve_sub_agents resolve_all_tools
    resolve_tools resolve_ai_gateway roll update_agent_status_ready
reconcile_all-binds_example =
    reconcile_all-binds toy toy-IsDigest rounds other_rounds agent (inl refl) refl refl

-- An agent with a port, in a cluster where its objects are new and every write succeeds.
abbrev serving : Agent
serving = record agent {
  spec = record (plain_spec [] []) {
    protocols = record { name = "a2a"; kind = "A2A"; port = 8000; path = "" } ∷ [];
  };
}

abbrev fresh : Objects toy
fresh = record {
  runtime = record {
    sort_slice = λ es. es;
    marshal_programs = λ ps. "[]";
    marshal_sub_agents = λ m. ok "{}";
    marshal_tools = λ m. ok "{}";
    room = 0;
    new_room = λ n. 0;
  };
  deployment = not_found;
  service = not_found;
  write_deployment = λ d. none;
  write_service = λ s. none;
  delete_service = none;
}

fresh-Succeeds : Succeeds toy (with_objects toy fresh (calm "t") serving) serving
unfolding get_agent_runtime_configuration resolve_all_sub_agents resolve_sub_agents
    resolve_all_tools resolve_tools resolve_ai_gateway made_deployment made_service
    ensure_agent_deployment mutate_deployment build_template_environment_vars ensure_agent_service
fresh-Succeeds = record {
  config = refl;
  sub_agents = refl;
  tools = refl;
  gateway = none;
  gateway_resolves = refl;
  deployment = refl;
  service = refl;
  status_written = refl;
}

reconcile-IsServing_example : IsServing toy fresh (calm "t") serving
reconcile-IsServing_example =
    reconcile-IsServing toy fresh (calm "t") serving
      ((reconcile-IsReady_iff toy (with_objects toy fresh (calm "t") serving) serving).1
        fresh-Succeeds)
      (λ e. cc e)
