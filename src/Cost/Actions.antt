-- ===== src/Cost/Actions.antt =====
-- When the predictor and the real-time optimiser act.
use ronak_agentk_runtime.Base.{
  String, Bool, true, false, ◌≡◌, ◌↔◌, ◌≢◌, ◌&&◌, ◌||◌, if◌then◌else◌, refl, ◌==◌, is_empty, inl,
  inr, Bool-cases, arith, eq_iff,
}
use ronak_agentk_runtime.Base.Int.{ℤ, pos, le_int}
use ronak_agentk_runtime.Base.Float.{Float64}
use ronak_agentk_runtime.Cost.Predictor.{
  predict_cost, linear_project_monthly, monthly_cost, is_over_budget, action_paused, action_for,
}
use ronak_agentk_runtime.Cost.RealTime.{evaluate_real_time_cost, threshold_of}

action_for-paused :
    (over : Bool) (model : String)
    → (action_for over model == action_paused) ≡ (over && is_empty model)
action_for-paused false model = refl
action_for-paused true model = elim (Bool-cases (model == "")) [ inl e ↦ rw e | inr e ↦ rw e ]

module _ (f : Float64) where
  open f use {Float, of_int, mul, div, gt, le, round, nine_tenths, eight_tenths, seven_tenths}

  -- The share of the budget that a mode allows.
  pub data IsShare (mode : String) (share : Float) : Type 0 where
    conservative : mode ≡ "conservative" → share ≡ nine_tenths → IsShare mode share
    aggressive : mode ≡ "aggressive" → share ≡ seven_tenths → IsShare mode share
    other : mode ≢ "conservative" → mode ≢ "aggressive" → share ≡ eight_tenths → IsShare mode share

  threshold_of-IsShare : (mode : String) → IsShare mode (threshold_of f mode)
  unfolding threshold_of
  threshold_of-IsShare mode = elim (Bool-cases (mode == "conservative")) [
    | inl c ↦ conservative ((eq_iff mode "conservative").0 c) (rw c refl)
    | inr c ↦ elim (Bool-cases (mode == "aggressive")) [
      | inl a ↦ aggressive ((eq_iff mode "aggressive").0 a) (rw (c, a) refl)
      | inr a ↦
          other (λ e. cc ((eq_iff mode "conservative").1 e, c))
            (λ e. cc ((eq_iff mode "aggressive").1 e, a)) (rw (c, a) refl)
    ]
  ]

  IsShare-threshold_of :
      (mode : String) (share : Float) → IsShare mode share → share ≡ threshold_of f mode
  unfolding threshold_of
  IsShare-threshold_of mode share (conservative m e) = rw m e
  IsShare-threshold_of mode share (aggressive m e) = rw m e
  IsShare-threshold_of mode share (other c a e) =
      ground (arith, eq_iff mode "conservative", eq_iff mode "aggressive", e)

  -- The cost of a month of 30 days at the tokens' rate so far, in whole cents.
  abbrev projection : ℤ → Float → Float → Float
  projection tokens uptime rate =
      let monthly =
        if le uptime (of_int (pos 0)) || le_int tokens (pos 0)
        then of_int (pos 0)
        else mul (div (of_int tokens) uptime) (of_int (pos 2592000)) in
      div (round (mul (mul monthly rate) (of_int (pos 100)))) (of_int (pos 100))

  -- What a suspension asks for.
  pub record IsExhausted (tokens : ℤ) (uptime rate budget : Float) (model mode : String)
      (suspend : Bool) : Type 0 where
    pub configured : suspend ≡ true
    pub no_cheaper_model : model ≡ ""
    pub share : Float
    pub of_mode : IsShare mode share
    pub over : gt (projection tokens uptime rate) (mul budget share) ≡ true
    pub positive : gt (mul budget share) (of_int (pos 0)) ≡ true

  is_over_budget_iff :
      (tokens : ℤ) (uptime rate limit : Float)
      → (is_over_budget f (monthly_cost f tokens uptime rate) limit ≡ true)
        ↔ ((gt (projection tokens uptime rate) limit ≡ true) × (gt limit (of_int (pos 0)) ≡ true))
  unfolding is_over_budget monthly_cost linear_project_monthly
  is_over_budget_iff tokens uptime rate limit = (λ h. ground arith, λ h. ground arith)

  suspends_iff :
      (tokens : ℤ) (uptime rate budget : Float) (model mode : String) (suspend spot : Bool)
      → ((evaluate_real_time_cost f tokens uptime rate budget model mode suspend
            spot).should_suspend
          ≡ true)
        ↔ ((suspend ≡ true)
            × (model ≡ "")
            × (is_over_budget f
                  (monthly_cost f tokens uptime rate)
                  (mul budget (threshold_of f mode))
                ≡ true))
  unfolding evaluate_real_time_cost predict_cost
  suspends_iff tokens uptime rate budget model mode suspend spot =
      let paused =
        action_for-paused
          (is_over_budget f (monthly_cost f tokens uptime rate) (mul budget (threshold_of f mode)))
          model in
      (λ h. ground (arith, eq_iff model "", paused), λ h. ground (arith, eq_iff model "", paused))

  -- The real-time optimiser suspends an agent exactly when suspension on an exhausted budget is
  -- configured, no downgrade model is given, and the share of the budget that the mode allows,
  -- nine tenths for conservative, seven for aggressive and eight for any other mode, is positive
  -- and below the projected cost of 30 days at the rate of the tokens so far, rounded to cents,
  -- where no tokens are projected without tokens or uptime.
  pub evaluate_real_time_cost-suspends_iff :
      (tokens : ℤ) (uptime rate budget : Float) (model mode : String) (suspend spot : Bool)
      → ((evaluate_real_time_cost f tokens uptime rate budget model mode suspend
            spot).should_suspend
          ≡ true)
        ↔ IsExhausted tokens uptime rate budget model mode suspend
  evaluate_real_time_cost-suspends_iff tokens uptime rate budget model mode suspend spot = (
    λ h.
        let (on, plain, over) =
          (suspends_iff tokens uptime rate budget model mode suspend spot).0 h in
        let (x, y) =
          (is_over_budget_iff tokens uptime rate (mul budget (threshold_of f mode))).0 over in
        record {
          configured = on;
          no_cheaper_model = plain;
          share = threshold_of f mode;
          of_mode = threshold_of-IsShare mode;
          over = x;
          positive = y;
        },
    λ h.
        let s = IsShare-threshold_of mode h.share h.of_mode in
        (suspends_iff tokens uptime rate budget model mode suspend spot).1 (
          h.configured,
          h.no_cheaper_model,
          (is_over_budget_iff tokens uptime rate (mul budget (threshold_of f mode))).1
              (rw s at h.over, rw s at h.positive),
        ),
  )
