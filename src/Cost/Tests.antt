-- ===== src/Cost/Tests.antt =====
-- Runs of the cost code, over tenths as the numbers.
use ronak_agentk_runtime.Base.{
  ◌≡◌, ◌≢◌, ◌↔◌, true, false, none, some, [], ◌∷◌, or_else, arith, eq_iff,
}
use ronak_agentk_runtime.Base.Int.{pos}
use ronak_agentk_runtime.Api.Agent.{Agent}
use ronak_agentk_runtime.Samples.{tenths, plain_agent, in_default}
use ronak_agentk_runtime.Cost.Predictor.{
  is_over_budget, monthly_cost, linear_project_monthly, predict_cost, action_none,
}
use ronak_agentk_runtime.Cost.RealTime.{evaluate_real_time_cost, threshold_of}
use ronak_agentk_runtime.Cost.Monitor.{Cache, Observed, evaluate, get_decision}
use ronak_agentk_runtime.Cost.Cache.{last_decision, get_decision-evaluate}
use ronak_agentk_runtime.Cost.Actions.{IsExhausted, evaluate_real_time_cost-suspends_iff}
use ronak_agentk_runtime.Cost.Modes.{IsOrdered}

tenths-IsOrdered : IsOrdered tenths
tenths-IsOrdered = record {
  gt_of_le = λ x a b p q. ground arith;
  pos_of_nine = λ m p. ground arith;
  le_eight = λ m p. ground arith;
  le_seven = λ m p. ground arith;
  pos_eight = λ m p. ground arith;
  pos_seven = λ m p. ground arith;
}

-- 100 tokens in 10 seconds at 2 each, with a budget of 1000.
evaluate_real_time_cost-suspends_iff_example :
    ((evaluate_real_time_cost tenths (pos 100) 100 20 10000 "" "auto" true false).should_suspend
      ≡ true)
    ↔ IsExhausted tenths (pos 100) 100 20 10000 "" "auto" true
evaluate_real_time_cost-suspends_iff_example =
    evaluate_real_time_cost-suspends_iff tenths (pos 100) 100 20 10000 "" "auto" true false

over_budget :
    (predict_cost tenths
      (pos 100)
      100
      20
      (tenths.mul 10000 (threshold_of tenths "conservative"))
      "").action
    ≢ action_none
unfolding predict_cost threshold_of is_over_budget monthly_cost linear_project_monthly
over_budget h = ground (arith, eq_iff "paused" "none")

abbrev idle : Observed tenths
idle = record { list_pods = λ ns app. some []; parse_int = λ s. none; age = λ a. 100 }

abbrev no_decisions : Cache
no_decisions _ = none

abbrev budgeted : Agent
budgeted =
    let a = plain_agent "a" "" [] [] in
    record a {
      spec = record a.spec {
        cost_budget = some (record {
          max_monthly_cost_usd = "10";
          downgrade_model = "small";
          cost_per_token_usd = "1";
        });
      };
    }

get_decision-evaluate_example :
    get_decision (evaluate tenths idle no_decisions (some (budgeted ∷ []))) (in_default "a")
    ≡ or_else (last_decision tenths idle (in_default "a") (budgeted ∷ [])) none
get_decision-evaluate_example =
    get_decision-evaluate tenths idle no_decisions (budgeted ∷ []) (in_default "a")
