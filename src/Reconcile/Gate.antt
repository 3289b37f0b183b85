-- ===== src/Reconcile/Gate.antt =====
-- When a reconciliation ends in which outcome.
use ronak_agentk_runtime.Base.{
  String, true, Option, none, some, length, Result, ok, err, is_ok, ◌≡◌, ◌↔◌, refl, inl, inr,
  Bool-cases,
}
use ronak_agentk_runtime.Api.Agent.{Agent, AgentStatus, GovernanceSpec}
use ronak_agentk_runtime.Refs.Cluster.{AiGateway}
use ronak_agentk_runtime.Refs.SubAgents.{resolve_all_sub_agents}
use ronak_agentk_runtime.Refs.Tools.{resolve_all_tools}
use ronak_agentk_runtime.Refs.Gateways.{resolve_ai_gateway}
use ronak_agentk_runtime.Governance.{GovernanceDecision, evaluate_governance}
use ronak_agentk_runtime.Governance.Decision.{evaluate_governance-blocks_iff}
use ronak_agentk_runtime.Reconcile.Config.{
  AgentRuntimeConfiguration, get_agent_runtime_configuration,
}
use ronak_agentk_runtime.Reconcile.Step.{
  Operator, Round, Outcome, ready, ready_status, saved, finish, gate, govern, after, with_gateway,
  unless, configured, reconcile,
}

module _ (o : Operator) (r : Round o) (a : Agent) where
  -- The status of the governance, empty where there is none.
  abbrev status_text : Option GovernanceDecision → String
  status_text none = ""
  status_text (some d) = d.status

  -- The steps of a round, one and all.
  pub record Succeeds : Type 0 where
    pub config : is_ok (get_agent_runtime_configuration r.pod_namespace r.list_configs) ≡ true
    pub sub_agents : (resolve_all_sub_agents r.cluster a).1 ≡ none
    pub tools : (resolve_all_tools r.cluster a).1 ≡ none
    pub gateway : Option AiGateway
    pub gateway_resolves : resolve_ai_gateway r.cluster a ≡ ok gateway
    pub deployment : is_ok r.deployment ≡ true
    pub service : is_ok r.service ≡ true
    pub status_written :
        r.write_status (ready_status o r a gateway (status_text (govern o a a.spec.governance)))
        ≡ none

  abbrev pub IsReady : Outcome o → Type 0
  IsReady out = (s : AgentStatus) × (out ≡ ready s)

  saved-IsReady : (s : AgentStatus) (e : Option String) → IsReady (saved o s e) ↔ (e ≡ none)
  saved-IsReady s none = (λ h. refl, λ h. (s, refl))
  saved-IsReady s (some m) = (λ h. cc (h.1), λ h. cc)

  -- The policies count as compliant, so the gate is open.
  gate-IsReady :
      (g : Option AiGateway) (spec : Option GovernanceSpec)
      → IsReady (gate o r a g (govern o a spec))
        ↔ (r.write_status (ready_status o r a g (status_text (govern o a spec))) ≡ none)
  unfolding govern finish
  gate-IsReady g none = saved-IsReady _ _
  gate-IsReady g (some s) =
      elim (Bool-cases
        (evaluate_governance s.autonomy_level (length a.spec.policy_refs) true
          s.require_policy_compliance).allowed) [
            | inl yes' ↦ rw yes' (saved-IsReady _ _)
            | inr no' ↦
                let v =
                  (evaluate_governance-blocks_iff s.autonomy_level (length a.spec.policy_refs) true
                      s.require_policy_compliance).0
                    no' in
                cc (v.broken)
          ]

  after-IsReady :
      (x : Result (Unit {0})) (next : Outcome o)
      → IsReady (after o x next) ↔ ((is_ok x ≡ true) × IsReady next)
  after-IsReady (ok _) next = (λ h. (refl, h), λ h. h.1)
  after-IsReady (err m) next = (λ h. cc (h.1), λ h. cc (h.0))

  unless-IsReady {ℓ} :
      {A : Type ℓ} (x : A × Option String) (next : Outcome o)
      → IsReady (unless o x next) ↔ ((x.1 ≡ none) × IsReady next)
  unless-IsReady (_, none) next = (λ h. (refl, h), λ h. h.1)
  unless-IsReady (_, some m) next = (λ h. cc (h.1), λ h. cc (h.0))

  configured-IsReady :
      (x : Result (Option AgentRuntimeConfiguration)) (next : Outcome o)
      → IsReady (configured o x next) ↔ ((is_ok x ≡ true) × IsReady next)
  configured-IsReady (ok _) next = (λ h. (refl, h), λ h. h.1)
  configured-IsReady (err m) next = (λ h. cc (h.1), λ h. cc (h.0))

  with_gateway-IsReady :
      (x : Result (Option AiGateway))
      → IsReady (with_gateway o r a x) ↔ (
          (g : Option AiGateway) × (x ≡ ok g)
          × (is_ok r.deployment ≡ true)
          × (is_ok r.service ≡ true)
          × (r.write_status (ready_status o r a g (status_text (govern o a a.spec.governance)))
              ≡ none))
  with_gateway-IsReady (err m) = (λ h. cc (h.1), λ h. cc (h.1))
  with_gateway-IsReady (ok g) = (
    λ h.
        let (d, h') = (after-IsReady r.deployment _).0 h in
        let (s, h2) = (after-IsReady r.service _).0 h' in
        (g, refl, d, s, (gate-IsReady g a.spec.governance).0 h2),
    λ (g', e, d, s, w). (after-IsReady r.deployment _).1 (
      d,
      (after-IsReady r.service _).1
          (s, (gate-IsReady g a.spec.governance).1 (written-same g g' e w)),
    ),
  )
    where
      written-same :
          (g g' : Option AiGateway)
          → ok g ≡ ok g'
          → r.write_status (ready_status o r a g' (status_text (govern o a a.spec.governance)))
            ≡ none
          → r.write_status (ready_status o r a g (status_text (govern o a a.spec.governance)))
            ≡ none
      written-same g g' e w = let same : g ≡ g' = cc e in rw same w

  -- Reconcile ends with the agent's status set to ready exactly when the runtime configuration is
  -- read and unambiguous, all sub-agents and all tools resolve, the AI gateway resolves, the
  -- writes of the deployment and of the service succeed, and so does the write of the ready status
  -- for that gateway. The agent's governance never blocks it, since the controller passes its
  -- policies as compliant.
  pub reconcile-IsReady_iff : IsReady (reconcile o r a) ↔ Succeeds
  unfolding reconcile
  reconcile-IsReady_iff = (
    λ h.
        let (c, h1) = (configured-IsReady _ _).0 h in
        let (s, h2) = (unless-IsReady (resolve_all_sub_agents r.cluster a) _).0 h1 in
        let (t, h3) = (unless-IsReady (resolve_all_tools r.cluster a) _).0 h2 in
        let (g, resolves, d, v, w) = (with_gateway-IsReady _).0 h3 in
        record {
          config = c;
          sub_agents = s;
          tools = t;
          gateway = g;
          gateway_resolves = resolves;
          deployment = d;
          service = v;
          status_written = w;
        },
    λ h. (configured-IsReady _ _).1 (
      h.config,
      (unless-IsReady (resolve_all_sub_agents r.cluster a) _).1 (
        h.sub_agents,
        (unless-IsReady (resolve_all_tools r.cluster a) _).1 (
          h.tools,
          (with_gateway-IsReady _).1
              (h.gateway, h.gateway_resolves, h.deployment, h.service, h.status_written),
        ),
      ),
    ),
  )
