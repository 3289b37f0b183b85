-- ===== src/Cost/Monitor.antt =====
-- internal/costintelligence/monitor.go. The cluster, the clock and strconv.ParseInt are the
-- parameters of one record; the cache (a sync.Map) is a function of its key.
use ronak_agentk_runtime.Base.{
  ℕ, String, Bool, false, List, [], ◌∷◌, Dict, Option, none, some, lookup, is_empty, ltb,
  if◌then◌else◌,
}
use ronak_agentk_runtime.Base.Int.{ℤ, pos, eq_int, add64}
use ronak_agentk_runtime.Base.Float.{Float64}
use ronak_agentk_runtime.Kube.{NamespacedName}
use ronak_agentk_runtime.Api.Agent.{Agent, CostBudgetSpec, CostIntelligenceSpec}
use ronak_agentk_runtime.Refs.Cluster.{same_key, agent_key}
use ronak_agentk_runtime.Cost.RealTime.{CostDecision, evaluate_real_time_cost}

-- The interval in seconds: one below ten seconds is replaced by a minute.
unfoldable pub new_cost_monitor-interval : ℕ → ℕ
new_cost_monitor-interval interval = if ltb interval 10 then 60 else interval

abbrev pub Cache : Type 0
Cache = NamespacedName → Option CostDecision

-- GetDecision
unfoldable pub get_decision : Cache → NamespacedName → Option CostDecision
get_decision cache key = cache key

-- sync.Map's Store
abbrev pub store : NamespacedName → CostDecision → Cache → Cache
store key d cache k = if same_key key k then some d else cache k

pub record Observed (f : Float64) : Type 0 where
  -- the annotations of the pods in a namespace with label app; `none` is an error
  pub list_pods : String → String → Option (List (Dict String))
  -- strconv.ParseInt(s, 10, 64)
  pub parse_int : String → Option ℤ
  -- time.Since(agent.CreationTimestamp.Time).Seconds()
  pub age : Agent → f.Float

module _ (f : Float64) (o : Observed f) where
  open f use {Float, parse}
  open o use {list_pods, parse_int, age}

  sum_tokens : ℤ → List (Dict String) → ℤ
  sum_tokens total [] = total
  sum_tokens total (annotations ∷ pods) =
      let next : ℤ = elim (lookup "agentk.io/tokens-used" annotations) [
        | none ↦ total
        | some val ↦ elim (parse_int val) [ none ↦ total | some tokens ↦ add64 total tokens ]
      ] in
      sum_tokens next pods

  unfoldable pub read_tokens_from_pods : Agent → ℤ
  unfolding sum_tokens
  read_tokens_from_pods a = elim (list_pods a.namespace a.name) [
    | none ↦ pos 0
    | some pods ↦ sum_tokens (pos 0) pods
  ]

  -- `v, _ := strconv.ParseFloat(s, 64)`
  abbrev parsed_value : String → Float
  parsed_value s = (parse s).0

  abbrev pub mode_of : Option CostIntelligenceSpec → String
  mode_of none = "auto"
  mode_of (some ci) = if is_empty ci.optimization_mode then "auto" else ci.optimization_mode

  abbrev pub suspend_of : Option CostIntelligenceSpec → Bool
  suspend_of none = false
  suspend_of (some ci) = ci.suspend_on_budget_exhaust

  abbrev pub spot_of : Option CostIntelligenceSpec → Bool
  spot_of none = false
  spot_of (some ci) = ci.spot_instance_fallback

  unfoldable pub decide : Agent → CostBudgetSpec → CostDecision
  decide a budget =
      let tokens =
        if eq_int a.status.tokens_used (pos 0)
        then read_tokens_from_pods a
        else a.status.tokens_used in
      evaluate_real_time_cost f tokens (age a) (parsed_value budget.cost_per_token_usd)
        (parsed_value budget.max_monthly_cost_usd) budget.downgrade_model
        (mode_of a.spec.cost_intelligence) (suspend_of a.spec.cost_intelligence)
        (spot_of a.spec.cost_intelligence)

  -- one round of the loop: an agent without a budget is skipped
  unfoldable pub evaluate_agent : Cache → Agent → Cache
  evaluate_agent cache a = elim a.spec.cost_budget [
    | none ↦ cache
    | some budget ↦ store (agent_key a) (decide a budget) cache
  ]

  unfoldable pub evaluate_all : Cache → List Agent → Cache
  evaluate_all cache [] = cache
  evaluate_all cache (a ∷ rest) = evaluate_all (evaluate_agent cache a) rest

  -- `none`: the agents could not be listed
  unfoldable pub evaluate : Cache → Option (List Agent) → Cache
  unfolding evaluate_all evaluate_agent
  evaluate cache none = cache
  evaluate cache (some agents) = evaluate_all cache agents
