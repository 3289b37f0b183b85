-- ===== src/Cost/RealTime.antt =====
-- internal/costintelligence/realoptimizer.go
use ronak_agentk_runtime.Base.{
  String, Bool, false, ◌&&◌, [], ◌∷◌, Dict, Option, none, some, ◌==◌, if◌then◌else◌,
}
use ronak_agentk_runtime.Base.Int.{ℤ}
use ronak_agentk_runtime.Base.Float.{Float64}
use ronak_agentk_runtime.Cost.Predictor.{predict_cost, action_paused}

pub record CostDecision : Type 0 where
  pub predicted_monthly_cost_usd : String
  pub action : String
  pub should_suspend : Bool
  -- a nil map is empty
  pub spot_annotations : Dict String
  pub downgrade_model : String

unfoldable pub build_spot_annotations : Dict String
build_spot_annotations =
    ("cloud.google.com/gke-spot", "true")
    ∷ ("karpenter.sh/capacity-type", "spot")
    ∷ ("agentk.io/spot-instance", "true")
    ∷ []

module _ (f : Float64) where
  open f use {Float, mul, nine_tenths, eight_tenths, seven_tenths}

  unfoldable pub threshold_of : String → Float
  threshold_of mode =
      if mode == "conservative"
      then nine_tenths
      else if mode == "aggressive"
      then seven_tenths
      else eight_tenths

  unfoldable pub evaluate_real_time_cost :
      ℤ → Float → Float → Float → String → String → Bool → Bool → CostDecision
  evaluate_real_time_cost tokens_used uptime_seconds cost_per_token_usd max_monthly_cost_usd
        downgrade_model optimization_mode suspend_on_exhaust spot_fallback =
      let effective_budget = mul max_monthly_cost_usd (threshold_of optimization_mode) in
      let prediction =
        predict_cost f tokens_used uptime_seconds cost_per_token_usd effective_budget
          downgrade_model in
      let suspend = suspend_on_exhaust && (prediction.action == action_paused) in
      record {
        predicted_monthly_cost_usd = prediction.predicted_monthly_cost_usd;
        action = if suspend then "suspended" else prediction.action;
        should_suspend = suspend;
        spot_annotations = if spot_fallback then build_spot_annotations else [];
        downgrade_model = prediction.downgrade_model;
      }

-- ShouldSuspend: `decision != nil && decision.ShouldSuspend`
unfoldable pub should_suspend : Option CostDecision → Bool
should_suspend none = false
should_suspend (some d) = d.should_suspend
