-- ===== src/Web/CostGraph.antt =====
-- web-dashboard/frontend/src/pages/CostGraph.tsx
pub mod View
use ronak_agentk_runtime.Base.{
  ℕ, ◌+◌, String, Bool, false, Option, none, some, List, [], ◌∷◌, map, ◌==◌, if◌then◌else◌,
}
use Prim.Native.String.{◌++◌}
use ronak_agentk_runtime.Web.Browser.{or_default, or_zero, JsNumber, Outcome, returned, thrown}
use ronak_agentk_runtime.Web.LiveAgents.{or_none}
use ronak_agentk_runtime.Web.Overview.{CostItem}

pub record CostGraph : Type 0 where
  pub costs : List CostItem
  pub loading : Bool

-- an error is swallowed
unfoldable pub loaded : CostGraph → Outcome (Option (List CostItem)) → CostGraph
loaded s (returned r) = record { costs = or_none r; loading = false }
loaded s (thrown _) = record s { loading = false }

-- the `fill` of a bar, by the entry's action: indigo, amber or red
unfoldable pub fill : String → String
fill action =
    if action == "none" then "#6366f1" else if action == "downgraded" then "#f59e0b" else "#ef4444"

abbrev is_action : Option String → String → Bool
is_action none s = false
is_action (some a) s = a == s

-- the class of the badge in the table, by `c.costAction` as it came
unfoldable pub badge_class : Option String → String
badge_class action =
    if is_action action "none"
    then "bg-green-100 text-green-700"
    else if is_action action "downgraded"
    then "bg-yellow-100 text-yellow-700"
    else "bg-red-100 text-red-700"

-- the text of that badge
abbrev pub badge_text : Option String → String
badge_text action = or_default action "none"

module _ (n : JsNumber) where
  open n use {Number, add, parse_float, to_fixed_2}

  -- An entry of `chartData`.
  pub record Entry : Type 0 where
    pub name : String
    pub cost : Number
    pub tokens : ℕ
    pub action : String

  unfoldable pub entry : CostItem → Entry
  entry c = record {
    name = c.name;
    cost = parse_float (or_default c.predicted_monthly_cost_usd "0");
    tokens = or_zero c.tokens_used;
    action = badge_text c.cost_action;
  }

  unfoldable pub chart_data : List CostItem → List Entry
  unfolding entry
  chart_data costs = map entry costs

  unfoldable pub reduce_cost : Number → List Entry → Number
  reduce_cost s [] = s
  reduce_cost s (d ∷ ds) = reduce_cost (add s d.cost) ds

  unfoldable pub total_cost : List CostItem → Number
  unfolding reduce_cost chart_data
  total_cost costs = reduce_cost n.zero (chart_data costs)

  unfoldable pub reduce_tokens : ℕ → List Entry → ℕ
  reduce_tokens s [] = s
  reduce_tokens s (d ∷ ds) = reduce_tokens (s + d.tokens) ds

  unfoldable pub total_tokens : List CostItem → ℕ
  unfolding reduce_tokens chart_data
  total_tokens costs = reduce_tokens 0 (chart_data costs)

  -- The fills of the bars, in order.
  unfoldable pub bars : List CostItem → List String
  unfolding chart_data fill
  bars costs = map (λ (d : Entry). fill d.action) (chart_data costs)

-- A row of the table: name, cost, tokens, and the badge of the action.
unfoldable pub table_row : CostItem → String × String × ℕ × (String × String)
unfolding badge_class
table_row c = (
  c.name,
  "$" ++ or_default c.predicted_monthly_cost_usd "0.00",
  or_zero c.tokens_used,
  (badge_text c.cost_action, badge_class c.cost_action),
)
