-- ===== src/Reconcile/Step.antt =====
-- Reconcile of internal/controller/agent_reconciler.go, after the agent is fetched. Logs and
-- metrics are left out. What the function asks of its surroundings is one record; ensureDeployment
-- and ensureService stand for their results (`err` is an error), and RetryOnConflict for the last
-- attempt's.
use ronak_agentk_runtime.Base.{
  String, true, Option, none, some, List, [], ◌∷◌, length, is_empty, if◌then◌else◌, Result, ok, err,
  Fetched,
}
use ronak_agentk_runtime.Base.Int.{ℤ, pos, add32}
use ronak_agentk_runtime.Base.Float.{Float64}
use ronak_agentk_runtime.Api.Agent.{
  Agent, AgentSpec, AgentStatus, Condition, CostBudgetSpec, CostIntelligenceSpec, VerifiableSpec,
  GovernanceSpec, LifecycleSpec,
}
use ronak_agentk_runtime.Refs.Cluster.{Cluster, AiGateway, agent_key}
use ronak_agentk_runtime.Refs.SubAgents.{resolve_all_sub_agents}
use ronak_agentk_runtime.Refs.Tools.{resolve_all_tools}
use ronak_agentk_runtime.Refs.Gateways.{resolve_ai_gateway}
use ronak_agentk_runtime.Cost.Predictor.{CostPrediction, predict_cost, parse_cost_string}
use ronak_agentk_runtime.Cost.RealTime.{CostDecision, evaluate_real_time_cost}
use ronak_agentk_runtime.Cost.Monitor.{Cache, get_decision}
use ronak_agentk_runtime.Governance.{GovernanceDecision, evaluate_governance}
use ronak_agentk_runtime.Lifecycle.{determine_lifecycle_phase}
use ronak_agentk_runtime.Attest.Checkpoint.{Event, compute_checkpoint, compute_merkle_root}
use ronak_agentk_runtime.Attest.Proof.{
  Provers, ProofEngine, ProofResult, generate_step_proof, generate_merkle_proof,
  compute_attestation_digest, merkle_only,
}
use ronak_agentk_runtime.Reconcile.Config.{
  AgentRuntimeConfiguration, get_agent_runtime_configuration,
}
use ronak_agentk_runtime.Reconcile.Status.{
  update_agent_status_ready, update_agent_status_not_ready, update_agent_status_blocked,
}

-- The surroundings that do not change from one reconciliation to the next.
pub record Operator : Type 1 where
  pub float : Float64
  pub provers : Provers
  pub sha256 : String → String
  -- json.Marshal
  pub marshal : AgentSpec → String
  pub set_status_condition : List Condition → Condition → List Condition

module _ (o : Operator) where
  open o use {float, provers, sha256, marshal, set_status_condition}

  -- What one reconciliation finds.
  pub record Round : Type 0 where
    pub cluster : Cluster
    pub pod_namespace : String
    pub list_configs : String → Fetched (List AgentRuntimeConfiguration)
    -- the outcomes of ensureDeployment and ensureService
    pub deployment : Result (Unit {0})
    pub service : Result (Unit {0})
    -- the error of writing a status, for a ready one that of the last attempt (`none`: no error)
    pub write_status : AgentStatus → Option String
    -- time.Now() in RFC 3339, and the agent's age in seconds
    pub now : String
    pub age : float.Float
    -- a nil engine or monitor is `none`
    pub proof_engine : Option (ProofEngine provers)
    pub cost_cache : Option Cache
    -- what the constructors of the two provers give if they are called
    pub new_snark : Option provers.Groth16
    pub new_plonk : Option provers.Plonk

  -- An error; or the status that is handed to the API server, where an error of writing one that is
  -- not ready or blocked is only logged. A blocked agent is looked at again in 30 seconds.
  pub data Outcome : Type 0 where
    failed : String → Outcome
    not_ready : AgentStatus → String → Outcome
    blocked : AgentStatus → Outcome
    ready : AgentStatus → Outcome

  unfoldable pub event_of : Round → Agent → Event
  event_of r a = record {
    spec_json = marshal a.spec;
    timestamp = r.now;
    count = add32 a.status.checkpoint_count (pos 1);
  }

  -- The proof of an agent whose proofs are enabled: its root and the digest.
  abbrev step_proof : Round → Agent → String → ProofResult
  step_proof r a mode = elim r.proof_engine [
    | none ↦
        generate_merkle_proof sha256 (marshal a.spec) a.status.zk_proof_root
          (add32 a.status.checkpoint_count (pos 1))
    | some pe ↦
        (generate_step_proof sha256 provers r.new_snark r.new_plonk pe mode (marshal a.spec)
          a.status.zk_proof_root (add32 a.status.checkpoint_count (pos 1))).1
  ]

  unfoldable pub prove : Round → Agent → Option VerifiableSpec → String × String
  prove r a none = ("", "")
  prove r a (some v) =
      if v.enabled
      then (let mode = if is_empty v.proof_mode then merkle_only else v.proof_mode in
          let root = (step_proof r a mode).proof_root in
          (root, compute_attestation_digest sha256 root a.name r.now))
      else ("", "")

  -- computeCostPrediction; `none` also for a cost that cannot be read
  unfoldable pub compute_cost_prediction :
      Round → Agent → Option CostBudgetSpec → Option CostPrediction
  compute_cost_prediction r a none = none
  compute_cost_prediction r a (some budget) =
      elim (parse_cost_string float budget.max_monthly_cost_usd) [
        | none ↦ none
        | some max ↦ elim (parse_cost_string float budget.cost_per_token_usd) [
          | none ↦ none
          | some per_token ↦
              let uptime =
                if float.le r.age (float.of_int (pos 0)) then float.of_int (pos 1) else r.age in
              some (
                predict_cost float a.status.tokens_used uptime per_token max budget.downgrade_model)
        ]
      ]

  abbrev parse_or_zero : String → float.Float
  parse_or_zero s = elim (parse_cost_string float s) [ none ↦ float.of_int (pos 0) | some v ↦ v ]

  abbrev cached : Option Cache → Agent → Option CostDecision
  cached none a = none
  cached (some cache) a = get_decision cache (agent_key a)

  abbrev inline_decision : Round → Agent → CostBudgetSpec → CostIntelligenceSpec → CostDecision
  inline_decision r a budget ci =
      evaluate_real_time_cost float a.status.tokens_used r.age
        (parse_or_zero budget.cost_per_token_usd) (parse_or_zero budget.max_monthly_cost_usd)
        budget.downgrade_model ci.optimization_mode ci.suspend_on_budget_exhaust
        ci.spot_instance_fallback

  -- the monitor's decision, or one computed on the spot
  abbrev decision_for : Option CostDecision → CostDecision → CostPrediction
  decision_for none d = record {
    predicted_monthly_cost_usd = d.predicted_monthly_cost_usd;
    action = d.action;
    downgrade_model = d.downgrade_model;
  }
  decision_for (some d) _ = record {
    predicted_monthly_cost_usd = d.predicted_monthly_cost_usd;
    action = d.action;
    downgrade_model = d.downgrade_model;
  }

  unfoldable pub prediction_of :
      Round → Agent → Option CostIntelligenceSpec → Option CostBudgetSpec → Option CostPrediction
  unfolding compute_cost_prediction
  prediction_of r a (some ci) (some budget) =
      some (decision_for (cached r.cost_cache a) (inline_decision r a budget ci))
  prediction_of r a none budget = compute_cost_prediction r a budget
  prediction_of r a (some ci) none = none

  -- The controller takes the policies to be compliant.
  unfoldable pub govern : Agent → Option GovernanceSpec → Option GovernanceDecision
  govern a none = none
  govern a (some g) = some (
      evaluate_governance g.autonomy_level (length a.spec.policy_refs) true
        g.require_policy_compliance)

  -- the first condition's generation, or 0
  abbrev observed_generation : List Condition → ℤ
  observed_generation [] = pos 0
  observed_generation (c ∷ _) = c.observed_generation

  unfoldable pub phase_of : Agent → Option LifecycleSpec → String
  phase_of a none = ""
  phase_of a (some _) =
      determine_lifecycle_phase a.spec.replicas (observed_generation a.status.conditions)
        a.generation

  -- From the checkpoint to the status.
  unfoldable pub ready_status : Round → Agent → Option AiGateway → String → AgentStatus
  unfolding event_of prove prediction_of phase_of
  ready_status r a gateway governance_status =
      let e = event_of r a in
      let (root, digest) = prove r a a.spec.verifiable in
      update_agent_status_ready set_status_condition a (record {
        ai_gateway = gateway;
        merkle_root = compute_merkle_root sha256 a.status.merkle_root (compute_checkpoint sha256 e);
        checkpoint_count = e.count;
        checkpoint_time = r.now;
        cost_prediction = prediction_of r a a.spec.cost_intelligence a.spec.cost_budget;
        zk_proof_root = root;
        attestation_digest = digest;
        governance_status = governance_status;
        lifecycle_phase = phase_of a a.spec.lifecycle;
      })

  -- The ready status is written, or its error ends the round.
  abbrev pub saved : AgentStatus → Option String → Outcome
  saved s none = ready s
  saved s (some m) = failed m

  unfoldable pub finish : Round → Agent → Option AiGateway → String → Outcome
  unfolding ready_status
  finish r a gateway governance_status =
      let s = ready_status r a gateway governance_status in saved s (r.write_status s)

  abbrev pub gate : Round → Agent → Option AiGateway → Option GovernanceDecision → Outcome
  gate r a gateway none = finish r a gateway ""
  gate r a gateway (some d) =
      if d.allowed
      then finish r a gateway d.status
      else blocked
          (update_agent_status_blocked set_status_condition a "GovernanceBlocked" d.reason d.status)

  -- `if err := …; err != nil { return err }`
  abbrev pub after : Result (Unit {0}) → Outcome → Outcome
  after (ok _) next = next
  after (err m) next = failed m

  abbrev pub with_gateway : Round → Agent → Result (Option AiGateway) → Outcome
  with_gateway r a (err m) =
      not_ready (update_agent_status_not_ready set_status_condition a "MissingAiGateway" m) m
  with_gateway r a (ok gateway) =
      after r.deployment (after r.service (gate r a gateway (govern a a.spec.governance)))

  abbrev pub unless {ℓ} : {A : Type ℓ} → A × Option String → Outcome → Outcome
  unless (_, none) next = next
  unless (_, some m) next = failed m

  abbrev pub configured : Result (Option AgentRuntimeConfiguration) → Outcome → Outcome
  configured (err m) next = failed m
  configured (ok _) next = next

  unfoldable pub reconcile : Round → Agent → Outcome
  unfolding get_agent_runtime_configuration finish govern
  reconcile r a = configured (get_agent_runtime_configuration r.pod_namespace r.list_configs) (
      unless (resolve_all_sub_agents r.cluster a) (
        unless (resolve_all_tools r.cluster a) (with_gateway r a (resolve_ai_gateway r.cluster a))))
