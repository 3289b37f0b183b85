-- ===== src/Web/LiveAgents/View.antt =====
-- What web-dashboard/frontend/src/pages/LiveAgents.tsx returns.
use ronak_agentk_runtime.Base.{
  ℕ, String, Option, none, some, List, [], ◌∷◌, ◌++◌, itoa, ◌&&◌, is_nil, if◌then◌else◌,
}
use ronak_agentk_runtime.Web.LiveAgents.{AgentItem, LiveAgents, Colour, green, yellow, card}
use ronak_agentk_runtime.Web.Html.{attr, on_click, Node, words, el, plain, says, dollars}

pub data Click : Type 0 where
  refreshed : Click
  -- after a confirmation, api.deleteAgent and then a refresh
  deleted : String → Click

-- the classes that depend on the governance status
unfoldable pub colour_class : Colour → String
colour_class green = "bg-green-100 text-green-700"
colour_class yellow = "bg-yellow-100 text-yellow-700"

unfoldable pub governance_badge : Option (String × Colour) → List (Node Click)
unfolding colour_class
governance_badge none = []
governance_badge (some (t, c)) = el "span" (attr "class" (colour_class c) ∷ []) (words t ∷ []) ∷ []

unfoldable pub phase_badge : Option String → List (Node Click)
phase_badge none = []
phase_badge (some t) = says "span" t ∷ []

unfoldable pub proof_root : Option String → List (Node Click)
proof_root none = []
proof_root (some r) = plain "div" (says "p" "ZK Proof Root" ∷ says "p" r ∷ []) ∷ []

unfoldable pub figure : String → String → Node Click
figure title value = plain "div" (says "p" title ∷ says "p" value ∷ [])

-- `toLocaleString` is the parameter `to_locale`.
module _ (to_locale : ℕ → String) where
  unfoldable pub agent_card : AgentItem → Node Click
  unfolding card governance_badge phase_badge proof_root figure
  agent_card a = plain "div" (
      plain "div" (
        plain "div" (
          says "h3" (card a).title
          ∷ plain "p" (
              words "Framework: "
              ∷ words a.framework
              ∷ words " | Replicas: "
              ∷ words (itoa a.replicas)
              ∷ [])
          ∷ [])
        ∷ plain "div" (governance_badge (card a).governance ++ phase_badge (card a).phase)
        ∷ [])
      ∷ plain "div" (
          figure "Monthly Cost" (dollars (card a).cost)
          ∷ figure "Tokens Used" (to_locale (card a).tokens)
          ∷ figure "Proof Mode" (card a).proof_mode
          ∷ figure "Merkle Root" (card a).merkle_root
          ∷ [])
      ∷ (proof_root (card a).zk_proof_root
          ++ (plain "div" (el "button" (on_click (deleted a.name) ∷ []) (words "Delete" ∷ []) ∷ [])
              ∷ [])))

  unfoldable pub agent_cards : List AgentItem → List (Node Click)
  unfolding agent_card
  agent_cards [] = []
  agent_cards (a ∷ as') = agent_card a ∷ agent_cards as'

  unfoldable pub render : LiveAgents → Node Click
  unfolding agent_cards
  render s = plain "div" (
      plain "div" (
        says "h2" "Live Agents" ∷ el "button" (on_click refreshed ∷ []) (words "Refresh" ∷ []) ∷ [])
      ∷ (if s.loading && is_nil s.agents
          then says "div" "Loading agents..."
          else plain "div" (agent_cards s.agents))
      ∷ [])
