-- ===== src/Web/Tests.antt =====
-- Runs of the dashboard.
use ronak_agentk_runtime.Base.{
  ℕ, ◌+◌, ◌≤◌, length, ◌≡◌, ◌↔◌, refl, String, true, false, Option, none, some, [], ◌∷◌,
}
use ronak_agentk_runtime.Web.Browser.{
  Browser, value, malformed, Reply, answered, is_truthy, Request, JsNumber,
}
use ronak_agentk_runtime.Web.Fetch.{Call, upload_kubeconfig, call_api, fetch_api, settle}
use ronak_agentk_runtime.Web.Routes.{navigate, route, is_logged_in, protected_layout}
use ronak_agentk_runtime.Web.Session.{IsPublic, call_api-revokes}
use ronak_agentk_runtime.Web.LiveAgents.{AgentItem}
use ronak_agentk_runtime.Web.Overview.{Overview, CostItem, rows, compliant_count}
use ronak_agentk_runtime.Web.CostGraph.{fill, badge_class, badge_text}
use ronak_agentk_runtime.Web.Figures.{
  badge_beside, fill-badge_class, green_rows, rows-compliant_count,
}

abbrev signed_in : Browser
signed_in = record { token = some "t1"; location = "/" }

abbrev signed_out : Browser
signed_out = record { token = none; location = "/agents" }

-- Replies whose JSON is a number with no detail.
abbrev no_detail : ℕ → Option String
no_detail _ = none

abbrev refuses : Request → Reply ℕ
refuses _ = answered 401 "Unauthorized" (malformed "no body")

abbrev serves : Request → Reply ℕ
serves _ = answered 200 "OK" (value 7)

call_api-revokes_example :
    IsPublic (navigate "/login")
    × ((upload_kubeconfig no_detail refuses signed_in "file").0 ≡ signed_in)
unfolding route protected_layout is_logged_in call_api fetch_api settle
call_api-revokes_example =
    call_api-revokes no_detail (λ s. s) refuses signed_in (Call.list_agents "default") "/cost"
      "file" (navigate "/login") refl refl

abbrev counting : JsNumber
counting = record {
  Number = ℕ;
  zero = 0;
  add = λ a b. a + b;
  parse_float = λ s. 5;
  to_fixed_2 = λ n. "";
}

abbrev item : Option String → AgentItem
item status = record {
  name = "a";
  framework = "google-adk";
  replicas = 1;
  governance_status = status;
  lifecycle_phase = some "stable";
  predicted_monthly_cost_usd = none;
  tokens_used = none;
  proof_mode = none;
  merkle_root = none;
  zk_proof_root = none;
}

abbrev cost_item : CostItem
cost_item = record {
  name = "a";
  predicted_monthly_cost_usd = some "5";
  tokens_used = some 3;
  cost_action = none;
}

abbrev overview : Overview
overview = record {
  agents = item (some "compliant") ∷ item none ∷ [];
  costs = cost_item ∷ cost_item ∷ [];
  loading = false;
  error = "";
}

fill-badge_class_example :
    (badge_beside (fill (badge_text (some "paused"))) ≡ badge_class (some "paused"))
    ↔ (is_truthy (some "paused") ≡ true)
fill-badge_class_example = fill-badge_class (some "paused")

rows-compliant_count_example :
    (green_rows (rows overview) ≤ compliant_count overview)
    × (length overview.agents ≤ 8 → green_rows (rows overview) ≡ compliant_count overview)
rows-compliant_count_example = rows-compliant_count overview
