-- ===== src/Cost/Modes.antt =====
-- How realoptimizer.go's optimisation modes compare.
use ronak_agentk_runtime.Base.{String, Bool, true, ◌≡◌, ◌≢◌, inl, inr, Bool-cases, arith}
use ronak_agentk_runtime.Base.Int.{ℤ, pos}
use ronak_agentk_runtime.Base.Float.{Float64}
use ronak_agentk_runtime.Cost.Predictor.{predict_cost, monthly_cost, is_over_budget, action_none}
use ronak_agentk_runtime.Cost.RealTime.{evaluate_real_time_cost, threshold_of}

module _ (f : Float64) where
  open f use {Float, of_int, mul, gt, le, nine_tenths, eight_tenths, seven_tenths}

  -- What the comparison of the modes relies on: IEEE 754's order, and products with the three
  -- thresholds that keep the order and the sign of a positive budget.
  pub record IsOrdered : Type 0 where
    pub gt_of_le : (x a b : Float) → gt x b ≡ true → le a b ≡ true → gt x a ≡ true
    pub pos_of_nine :
        (m : Float) → gt (mul m nine_tenths) (of_int (pos 0)) ≡ true → gt m (of_int (pos 0)) ≡ true
    pub le_eight :
        (m : Float)
        → gt m (of_int (pos 0)) ≡ true
        → le (mul m eight_tenths) (mul m nine_tenths) ≡ true
    pub le_seven :
        (m : Float)
        → gt m (of_int (pos 0)) ≡ true
        → le (mul m seven_tenths) (mul m nine_tenths) ≡ true
    pub pos_eight :
        (m : Float) → gt m (of_int (pos 0)) ≡ true → gt (mul m eight_tenths) (of_int (pos 0)) ≡ true
    pub pos_seven :
        (m : Float) → gt m (of_int (pos 0)) ≡ true → gt (mul m seven_tenths) (of_int (pos 0)) ≡ true

module _ (f : Float64) (o : IsOrdered f) where
  open f use {Float, of_int, mul, gt, nine_tenths}

  over-modes :
      (cost m : Float) (mode : String)
      → is_over_budget f cost (mul m nine_tenths) ≡ true
      → is_over_budget f cost (mul m (threshold_of f mode)) ≡ true
  unfolding is_over_budget threshold_of
  over-modes cost m mode h =
      let over : gt cost (mul m nine_tenths) ≡ true = ground arith in
      let p = o.pos_of_nine m (ground arith) in
      ground (
        arith,
        o.gt_of_le cost _ _ over (o.le_eight m p),
        o.gt_of_le cost _ _ over (o.le_seven m p),
        o.pos_eight m p,
        o.pos_seven m p,
      )

  -- The action of a prediction that is over budget does not depend on the mode.
  predict_cost-modes :
      (tokens : ℤ) (uptime rate m : Float) (model mode : String)
      → (predict_cost f tokens uptime rate (mul m nine_tenths) model).action ≢ action_none
      → (predict_cost f tokens uptime rate (mul m (threshold_of f mode)) model).action
        ≡ (predict_cost f tokens uptime rate (mul m nine_tenths) model).action
  unfolding predict_cost
  predict_cost-modes tokens uptime rate m model mode h =
      elim (Bool-cases (is_over_budget f (monthly_cost f tokens uptime rate) (mul m nine_tenths))) [
        | inl over ↦ rw (over, over-modes (monthly_cost f tokens uptime rate) m mode over)
        | inr within ↦ absurd (h (rw within))
      ]

  -- Where the conservative mode's prediction calls for an action, every other mode takes the same
  -- action as the conservative one. Assumed: the float comparisons are transitive, and the three
  -- shares of a budget keep the order 0.7, 0.8, 0.9 and the sign of the budget.
  pub evaluate_real_time_cost-modes :
      (tokens : ℤ) (uptime rate budget : Float) (model mode : String) (suspend spot : Bool)
      → (predict_cost f tokens uptime rate
          (mul budget (threshold_of f "conservative"))
          model).action
        ≢ action_none
      → (evaluate_real_time_cost f tokens uptime rate budget model mode suspend spot).action
        ≡ (evaluate_real_time_cost f tokens uptime rate budget model "conservative" suspend
            spot).action
  unfolding evaluate_real_time_cost threshold_of
  evaluate_real_time_cost-modes tokens uptime rate budget model mode suspend spot h =
      rw (predict_cost-modes tokens uptime rate budget model mode h)
