-- ===== src/Cost/Predictor.antt =====
-- internal/costpredictor/predictor.go
use ronak_agentk_runtime.Base.{
  String, Bool, ◌&&◌, ◌||◌, Option, none, some, is_empty, non_empty, if◌then◌else◌,
}
use ronak_agentk_runtime.Base.Int.{ℤ, pos, le_int}
use ronak_agentk_runtime.Base.Float.{Float64}

abbrev pub seconds_in_month : ℤ
seconds_in_month = pos 2592000

abbrev pub action_none : String
action_none = "none"

abbrev pub action_downgraded : String
action_downgraded = "downgraded"

abbrev pub action_paused : String
action_paused = "paused"

pub record CostPrediction : Type 0 where
  pub predicted_monthly_cost_usd : String
  pub action : String
  pub downgrade_model : String

-- The action, by whether the cost is over the budget.
abbrev pub action_for : Bool → String → String
action_for over downgrade_model =
    if over
    then (if non_empty downgrade_model then action_downgraded else action_paused)
    else action_none

module _ (f : Float64) where
  open f use {Float, of_int, mul, div, gt, le, round, format_2, parse}

  unfoldable pub linear_project_monthly : ℤ → Float → Float
  linear_project_monthly tokens_used uptime_seconds =
      if le uptime_seconds (of_int (pos 0)) || le_int tokens_used (pos 0)
      then of_int (pos 0)
      else mul (div (of_int tokens_used) uptime_seconds) (of_int seconds_in_month)

  -- math.Round(cost*100) / 100
  unfoldable pub monthly_cost : ℤ → Float → Float → Float
  monthly_cost tokens_used uptime_seconds cost_per_token_usd =
      div
        (round (
          mul (mul (linear_project_monthly tokens_used uptime_seconds) cost_per_token_usd)
            (of_int (pos 100))))
        (of_int (pos 100))

  -- `monthlyCost > maxMonthlyCostUSD && maxMonthlyCostUSD > 0`
  unfoldable pub is_over_budget : Float → Float → Bool
  is_over_budget cost budget = gt cost budget && gt budget (of_int (pos 0))

  unfoldable pub predict_cost : ℤ → Float → Float → Float → String → CostPrediction
  predict_cost tokens_used uptime_seconds cost_per_token_usd max_monthly_cost_usd downgrade_model =
      let cost = monthly_cost tokens_used uptime_seconds cost_per_token_usd in
      let over = is_over_budget cost max_monthly_cost_usd in
      record {
        predicted_monthly_cost_usd = format_2 cost;
        action = action_for over downgrade_model;
        downgrade_model = if over && non_empty downgrade_model then downgrade_model else "";
      }

  -- `none` is an error: an empty text, no number, or a negative one.
  unfoldable pub parse_cost_string : String → Option Float
  parse_cost_string s =
      if is_empty s
      then none
      else let (v, fine) = parse s in
        if fine then (if gt (of_int (pos 0)) v then none else some v) else none
