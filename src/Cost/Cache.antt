-- ===== src/Cost/Cache.antt =====
-- What monitor.go's cache holds after a scan.
use ronak_agentk_runtime.Base.{
  ◌≡◌, refl, List, [], ◌∷◌, Option, none, some, or_else, if◌then◌else◌, arith,
}
use ronak_agentk_runtime.Base.Float.{Float64}
use ronak_agentk_runtime.Kube.{NamespacedName}
use ronak_agentk_runtime.Api.Agent.{Agent, CostBudgetSpec}
use ronak_agentk_runtime.Refs.Cluster.{same_key, agent_key}
use ronak_agentk_runtime.Cost.RealTime.{CostDecision}
use ronak_agentk_runtime.Cost.Monitor.{
  Cache, Observed, decide, evaluate_agent, evaluate_all, evaluate, get_decision,
}

module _ (f : Float64) (o : Observed f) where
  -- The decision that one agent asks for under a key.
  abbrev pub own_decision : NamespacedName → Agent → Option CostBudgetSpec → Option CostDecision
  own_decision key a none = none
  own_decision key a (some budget) =
      if same_key (agent_key a) key then some (decide f o a budget) else none

  -- The decision of the last agent with the key and a budget.
  abbrev pub last_decision : NamespacedName → List Agent → Option CostDecision
  last_decision key [] = none
  last_decision key (a ∷ rest) =
      or_else (last_decision key rest) (own_decision key a a.spec.cost_budget)

  evaluate_agent_lem :
      (cache : Cache) (a : Agent) (key : NamespacedName)
      → evaluate_agent f o cache a key ≡ or_else (own_decision key a a.spec.cost_budget) (cache key)
  unfolding evaluate_agent
  evaluate_agent_lem cache a key = ground arith

  evaluate_all_lem :
      (cache : Cache) (agents : List Agent) (key : NamespacedName)
      → evaluate_all f o cache agents key ≡ or_else (last_decision key agents) (cache key)
  unfolding evaluate_all
  evaluate_all_lem cache [] key = refl
  evaluate_all_lem cache (a ∷ rest) key = ground (
    arith,
    evaluate_all_lem (evaluate_agent f o cache a) rest key,
    evaluate_agent_lem cache a key,
  )

  -- After a scan, the cached decision of a key is that of the last listed agent with this key and
  -- a budget, and if there is none, whatever the cache held before: a decision is never evicted.
  pub get_decision-evaluate :
      (cache : Cache) (agents : List Agent) (key : NamespacedName)
      → get_decision (evaluate f o cache (some agents)) key
        ≡ or_else (last_decision key agents) (cache key)
  unfolding evaluate get_decision
  get_decision-evaluate cache agents key = evaluate_all_lem cache agents key
