-- ===== src/Web/LiveAgents.antt =====
-- web-dashboard/frontend/src/pages/LiveAgents.tsx
pub mod View
use ronak_agentk_runtime.Base.{
  ℕ, String, Bool, true, false, ◌&&◌, Option, none, some, List, [], ◌∷◌, map, ◌==◌, is_nil,
  if◌then◌else◌,
}
use ronak_agentk_runtime.Web.Browser.{or_default, or_zero, is_truthy}

-- An element of the `agents` that the backend lists.
pub record AgentItem : Type 0 where
  pub name : String
  pub framework : String
  pub replicas : ℕ
  pub governance_status : Option String
  pub lifecycle_phase : Option String
  pub predicted_monthly_cost_usd : Option String
  pub tokens_used : Option ℕ
  pub proof_mode : Option String
  pub merkle_root : Option String
  pub zk_proof_root : Option String

-- What happens to the page, in any order: refreshes may overlap.
pub data Event : Type 0 where
  refresh : Event
  -- `r.agents || []` of a reply
  listed : Option (List AgentItem) → Event
  failed : Event

pub record LiveAgents : Type 0 where
  pub agents : List AgentItem
  pub loading : Bool

unfoldable pub initial : LiveAgents
initial = record { agents = []; loading = true }

-- `r.agents || []`
abbrev pub or_none {ℓ} : {A : Type ℓ} → Option (List A) → List A
or_none none = []
or_none (some l) = l

unfoldable pub step : LiveAgents → Event → LiveAgents
step s refresh = record s { loading = true }
step s (listed r) = record { agents = or_none r; loading = false }
step s failed = record s { loading = false }

unfoldable pub run : LiveAgents → List Event → LiveAgents
run s [] = s
run s (e ∷ es) = run (step s e) es

pub data Colour : Type 0 where
  green yellow : Colour

-- A card: the badges, the four figures and the proof root.
pub record Card : Type 0 where
  pub title : String
  pub governance : Option (String × Colour)
  pub phase : Option String
  pub cost : String
  pub tokens : ℕ
  pub proof_mode : String
  pub merkle_root : String
  pub zk_proof_root : Option String

-- `x && <span>…</span>`
abbrev pub shown : Option String → Option String
shown none = none
shown (some s) = if is_truthy (some s) then some s else none

abbrev badge : Option String → Option (String × Colour)
badge none = none
badge (some s) =
    if is_truthy (some s) then some (s, if s == "compliant" then green else yellow) else none

unfoldable pub card : AgentItem → Card
card a = record {
  title = a.name;
  governance = badge a.governance_status;
  phase = shown a.lifecycle_phase;
  cost = or_default a.predicted_monthly_cost_usd "0.00";
  tokens = or_zero a.tokens_used;
  proof_mode = or_default a.proof_mode "merkle-only";
  merkle_root = or_default a.merkle_root "n/a";
  zk_proof_root = shown a.zk_proof_root;
}

-- What the page shows: `none` is "Loading agents...".
unfoldable pub view : LiveAgents → Option (List Card)
unfolding card
view s = if s.loading && is_nil s.agents then none else some (map card s.agents)
