-- ===== src/Web/Overview.antt =====
-- web-dashboard/frontend/src/pages/Dashboard.tsx
pub mod View
use ronak_agentk_runtime.Base.{
  ℕ, suc, String, Bool, true, false, Option, none, some, List, [], ◌∷◌, map, ◌==◌, take,
  if◌then◌else◌,
}
use Prim.Native.String.{◌++◌}
use ronak_agentk_runtime.Web.Browser.{or_default, is_truthy, JsNumber, Outcome, returned, thrown}
use ronak_agentk_runtime.Web.LiveAgents.{AgentItem, or_none}

-- An element of the `costs` that the backend lists.
pub record CostItem : Type 0 where
  pub name : String
  pub predicted_monthly_cost_usd : Option String
  pub tokens_used : Option ℕ
  pub cost_action : Option String

pub record Overview : Type 0 where
  pub agents : List AgentItem
  pub costs : List CostItem
  pub loading : Bool
  pub error : String

unfoldable pub initial : Overview
initial = record { agents = []; costs = []; loading = true; error = "" }

-- Promise.all of the two requests: both lists, or the first error
unfoldable pub loaded :
    Overview → Outcome (Option (List AgentItem) × Option (List CostItem)) → Overview
loaded s (returned (a, c)) = record s { agents = or_none a; costs = or_none c; loading = false }
loaded s (thrown message) = record s {
  error = or_default (some message) "Failed to load data";
  loading = false;
}

abbrev pub is_compliant : Option String → Bool
is_compliant none = false
is_compliant (some s) = s == "compliant"

-- `xs.filter(p).length`
abbrev pub count {ℓ} : {A : Type ℓ} → (A → Bool) → List A → ℕ
count p [] = 0
count p (x ∷ xs) = if p x then suc (count p xs) else count p xs

unfoldable pub compliant_count : Overview → ℕ
compliant_count s = count (λ (a : AgentItem). is_compliant a.governance_status) s.agents

unfoldable pub with_proofs : Overview → ℕ
with_proofs s = count (λ (a : AgentItem). is_truthy a.zk_proof_root) s.agents

module _ (n : JsNumber) where
  open n use {Number, add, parse_float, to_fixed_2}

  unfoldable pub sum_costs : Number → List CostItem → Number
  sum_costs s [] = s
  sum_costs s (c ∷ cs) =
      sum_costs (add s (parse_float (or_default c.predicted_monthly_cost_usd "0"))) cs

  unfoldable pub total_cost : Overview → Number
  unfolding sum_costs
  total_cost s = sum_costs n.zero s.costs

pub data Variant : Type 0 where
  success warning info danger : Variant

-- A row of the table: name, the two badges, cost and proof mode.
pub record Row : Type 0 where
  pub name : String
  pub governance : String × Variant
  pub lifecycle : String × Variant
  pub cost : String
  pub proof_mode : String

abbrev is_stable : Option String → Bool
is_stable none = false
is_stable (some s) = s == "stable"

unfoldable pub row : AgentItem → Row
row a = record {
  name = a.name;
  governance = (
    or_default a.governance_status "n/a",
    if is_compliant a.governance_status then success else warning,
  );
  lifecycle =
      (or_default a.lifecycle_phase "n/a", if is_stable a.lifecycle_phase then success else info);
  cost = "$" ++ or_default a.predicted_monthly_cost_usd "0.00";
  proof_mode = or_default a.proof_mode "merkle-only";
}

-- The body of the table: the first eight agents.
unfoldable pub rows : Overview → List Row
unfolding row
rows s = map row (take 8 s.agents)
