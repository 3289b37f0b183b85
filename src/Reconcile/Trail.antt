-- ===== src/Reconcile/Trail.antt =====
-- The audit trail over many reconciliations.
use ronak_agentk_runtime.Base.{
  String, Option, none, some, List, [], ◌∷◌, ◌++◌, map, length, Result, ok, err, ◌≡◌, ◌⊎◌, refl, ap,
  sym, ◌∙◌, Bool-cases, inl, inr,
}
use ronak_agentk_runtime.Api.Agent.{Agent, AgentSpec, AgentStatus}
use ronak_agentk_runtime.Refs.Cluster.{AiGateway}
use ronak_agentk_runtime.Refs.SubAgents.{resolve_all_sub_agents}
use ronak_agentk_runtime.Refs.Tools.{resolve_all_tools}
use ronak_agentk_runtime.Governance.{GovernanceDecision}
use ronak_agentk_runtime.Attest.Checkpoint.{
  Event, checkpoint_data, compute_checkpoint, compute_merkle_root, roll,
}
use ronak_agentk_runtime.Attest.Chain.{IsDigest, Collision, roll-binds}
use ronak_agentk_runtime.Reconcile.Config.{AgentRuntimeConfiguration}
use ronak_agentk_runtime.Reconcile.Status.{
  update_agent_status_ready, update_agent_status_not_ready, update_agent_status_blocked,
}
use ronak_agentk_runtime.Reconcile.Step.{
  Operator, Round, Outcome, failed, not_ready, blocked, ready, event_of, ready_status, saved,
  finish, gate, govern, after, with_gateway, unless, configured, reconcile,
}

module _ (o : Operator) where
  -- A status after the write of another: that one, or where there was an error the old one.
  abbrev pub after_write : AgentStatus → AgentStatus → Option String → AgentStatus
  after_write old new none = new
  after_write old new (some _) = old

  -- The status that an outcome of a round leaves.
  abbrev pub status_after : Round o → AgentStatus → Outcome o → AgentStatus
  status_after r s (failed _) = s
  status_after r s (not_ready s' _) = after_write s s' (r.write_status s')
  status_after r s (blocked s') = after_write s s' (r.write_status s')
  status_after r s (ready s') = s'

  -- The event that an outcome checkpoints, if any.
  abbrev pub recorded : Event → Outcome o → List Event
  recorded e (ready _) = e ∷ []
  recorded e _ = []

  module _ (r : Round o) (a : Agent) where
    abbrev IsStep : Outcome o → Type 0
    IsStep out =
        (status_after r a.status out).merkle_root
        ≡ roll o.sha256 a.status.merkle_root (recorded (event_of o r a) out)

    saved-IsStep :
        (g : Option AiGateway) (s : String) (e : Option String)
        → IsStep (saved o (ready_status o r a g s) e)
    unfolding ready_status roll update_agent_status_ready
    saved-IsStep g s none = refl
    saved-IsStep g s (some m) = refl

    finish-IsStep : (g : Option AiGateway) (s : String) → IsStep (finish o r a g s)
    unfolding finish
    finish-IsStep g s = saved-IsStep g s (r.write_status (ready_status o r a g s))

    -- A write that leaves the root alone leaves it alone whatever comes of it.
    after_write-root :
        (new : AgentStatus) (e : Option String)
        → new.merkle_root ≡ a.status.merkle_root
        → (after_write a.status new e).merkle_root ≡ a.status.merkle_root
    after_write-root new none h = h
    after_write-root new (some m) h = refl

    gate-IsStep : (g : Option AiGateway) (d : Option GovernanceDecision) → IsStep (gate o r a g d)
    unfolding roll update_agent_status_blocked
    gate-IsStep g none = finish-IsStep g ""
    gate-IsStep g (some d) = elim (Bool-cases d.allowed) [
      | inl yes' ↦ rw yes' (finish-IsStep g d.status)
      | inr no' ↦ rw no' (
          after_write-root
            (update_agent_status_blocked o.set_status_condition a "GovernanceBlocked" d.reason
              d.status)
            _ refl)
    ]

    after-IsStep :
        (x : Result (Unit {0})) (next : Outcome o) → IsStep next → IsStep (after o x next)
    unfolding roll
    after-IsStep (ok _) next h = h
    after-IsStep (err m) next h = refl

    unless-IsStep {ℓ} :
        {A : Type ℓ} (x : A × Option String) (next : Outcome o)
        → IsStep next
        → IsStep (unless o x next)
    unfolding roll
    unless-IsStep (_, none) next h = h
    unless-IsStep (_, some m) next h = refl

    configured-IsStep :
        (x : Result (Option AgentRuntimeConfiguration)) (next : Outcome o)
        → IsStep next
        → IsStep (configured o x next)
    unfolding roll
    configured-IsStep (ok _) next h = h
    configured-IsStep (err m) next h = refl

    with_gateway-IsStep : (x : Result (Option AiGateway)) → IsStep (with_gateway o r a x)
    unfolding roll update_agent_status_not_ready
    with_gateway-IsStep (err m) =
        after_write-root
          (update_agent_status_not_ready o.set_status_condition a "MissingAiGateway" m) _ refl
    with_gateway-IsStep (ok g) =
        after-IsStep r.deployment _
          (after-IsStep r.service _ (gate-IsStep g (govern o a a.spec.governance)))

    reconcile-IsStep : IsStep (reconcile o r a)
    unfolding reconcile
    reconcile-IsStep = configured-IsStep _ _ (
        unless-IsStep (resolve_all_sub_agents r.cluster a) _
          (unless-IsStep (resolve_all_tools r.cluster a) _ (with_gateway-IsStep _)))

  -- The agent that a reconciliation sees: its spec may have been edited since the last one.
  abbrev pub edited : AgentSpec → Agent → Agent
  edited spec a = record a { spec = spec }

  abbrev pub settle : Round o → Agent → Agent
  settle r a = record a { status = status_after r a.status (reconcile o r a) }

  unfoldable pub reconcile_all : List (AgentSpec × Round o) → Agent → Agent
  reconcile_all [] a = a
  reconcile_all ((spec, r) ∷ rest) a = reconcile_all rest (settle r (edited spec a))

  -- What the reconciliations checkpoint, in order.
  unfoldable pub trail : List (AgentSpec × Round o) → Agent → List Event
  trail [] a = []
  trail ((spec, r) ∷ rest) a =
      recorded (event_of o r (edited spec a)) (reconcile o r (edited spec a))
      ++ trail rest (settle r (edited spec a))

  roll-append :
      (es ds : List Event) (root : String)
      → roll o.sha256 root (es ++ ds) ≡ roll o.sha256 (roll o.sha256 root es) ds
  unfolding roll
  roll-append [] ds root = refl
  roll-append (e ∷ es) ds root =
      roll-append es ds (compute_merkle_root o.sha256 root (compute_checkpoint o.sha256 e))

  -- After any sequence of reconciliations of an agent, with its spec edited in between, the Merkle
  -- root in its status is the chain, from the root at the start, of the events of just those
  -- reconciliations that ended ready: a failed, blocked or not ready one leaves the root alone,
  -- and so does one whose write of the ready status fails.
  pub reconcile_all-root :
      (rounds : List (AgentSpec × Round o)) (a : Agent)
      → (reconcile_all rounds a).status.merkle_root
        ≡ roll o.sha256 a.status.merkle_root (trail rounds a)
  unfolding reconcile_all trail roll
  reconcile_all-root [] a = refl
  reconcile_all-root ((spec, r) ∷ rest) a =
      let now = edited spec a in
      reconcile_all-root rest (settle r now)
      ∙ ap (λ x. roll o.sha256 x (trail rest (settle r now))) (reconcile-IsStep r now)
      ∙ sym (
          roll-append (recorded (event_of o r now) (reconcile o r now)) (trail rest (settle r now))
            a.status.merkle_root)

  -- Tamper evidence of the audit trail: take two histories of one agent, each a list of edited
  -- specs with the rounds that reconcile them, that checkpoint equally many events and end at the
  -- same Merkle root. Then they checkpointed the same texts of spec, time and count, or two
  -- different texts are known that SHA-256 maps to one digest. Assumed: the agent is new (an empty
  -- root) or has a digest as its root, and every output of SHA-256 is a digest, not empty and
  -- without '|'.
  pub reconcile_all-binds :
      ((s : String) → IsDigest (o.sha256 s))
      → (xs ys : List (AgentSpec × Round o)) (a : Agent)
      → (a.status.merkle_root ≡ "") ⊎ IsDigest a.status.merkle_root
      → length (trail xs a) ≡ length (trail ys a)
      → (reconcile_all xs a).status.merkle_root ≡ (reconcile_all ys a).status.merkle_root
      → (map checkpoint_data (trail xs a) ≡ map checkpoint_data (trail ys a)) ⊎ Collision o.sha256
  reconcile_all-binds hex xs ys a start n same =
      roll-binds o.sha256 hex a.status.merkle_root (trail xs a) (trail ys a) start n
        (sym (reconcile_all-root xs a) ∙ same ∙ reconcile_all-root ys a)
