-- ===== src/Web/Tables.antt =====
-- What the pages show for the lists that they have loaded: rows, bars and buttons.
use ronak_agentk_runtime.Base.{
  ℕ, suc, String, ◌&&◌, Option, none, some, List, [], ◌∷◌, ◌++◌, map, ◌≡◌, refl, ◌∙◌, ap, arith,
  inl, inr, Bool-cases, length, is_nil, non_empty, if◌then◌else◌,
}
use mathlib.Core.List.{append-nil}
use ronak_agentk_runtime.Web.Browser.{JsNumber}
use ronak_agentk_runtime.Web.Html.{Node, nodes}
use ronak_agentk_runtime.Web.Markup.{count_tag, count_tag_all, clicks, clicks_all}
use ronak_agentk_runtime.Web.LiveAgents.{AgentItem, LiveAgents, card}
use ronak_agentk_runtime.Web.LiveAgents.View.{
  Click, refreshed, deleted, agent_card, agent_cards, governance_badge, phase_badge, proof_root,
}
use ronak_agentk_runtime.Web.LiveAgents
use ronak_agentk_runtime.Web.Overview.{Overview, CostItem, Row, rows}
use ronak_agentk_runtime.Web.Overview.View.{table_row, table_rows}
use ronak_agentk_runtime.Web.Overview
use ronak_agentk_runtime.Web.CostGraph.{CostGraph, bars, chart_data}
use ronak_agentk_runtime.Web.CostGraph.View.{cells, detail_row, detail_rows}
use ronak_agentk_runtime.Web.CostGraph

count_tag-table_rows :
    (io : String → Option String) (rs : List Row)
    → count_tag_all "tr" (nodes (table_rows io rs)) ≡ length rs
unfolding count_tag table_row
count_tag-table_rows io [] = refl
count_tag-table_rows io (r ∷ rs) = let rest = count_tag-table_rows io rs in omega arith

count_tag-deployed_agents :
    (io : String → Option String) (s : Overview)
    → count_tag "tr" (Overview.View.deployed_agents io s)
      ≡ (if is_nil s.agents then 0 else suc (length (rows s)))
unfolding count_tag Overview.View.deployed_agents
count_tag-deployed_agents io s = elim (Bool-cases (is_nil s.agents)) [
  | inl e ↦ rw e refl
  | inr e ↦ rw e (rw (count_tag-table_rows io (rows s)) (omega arith))
]

-- The dashboard's table has a head and one row for each agent that is shown, and there is none while
-- the page is loading or without agents.
pub overview-rows :
    (io : String → Option String) (n : JsNumber) (s : Overview)
    → count_tag "tr" (Overview.View.render io n s)
      ≡ (if s.loading then 0 else if is_nil s.agents then 0 else suc (length (rows s)))
unfolding count_tag Overview.View.render
overview-rows io n s = elim (Bool-cases s.loading) [
  | inl l ↦ rw l refl
  | inr l ↦ elim (Bool-cases (non_empty s.error)) [
    | inl e ↦ rw l (rw e (rw (count_tag-deployed_agents io s) omega arith))
    | inr e ↦ rw l (rw e (rw (count_tag-deployed_agents io s) omega arith))
  ]
]

count_tag-cells : (cs : List String) → count_tag_all "Cell" (nodes (cells cs)) ≡ length cs
unfolding count_tag cells
count_tag-cells [] = refl
count_tag-cells (c ∷ cs) = let rest = count_tag-cells cs in omega arith

count_tag-no_rows : (cs : List String) → count_tag_all "tr" (nodes (cells cs)) ≡ 0
unfolding count_tag cells
count_tag-no_rows [] = refl
count_tag-no_rows (c ∷ cs) = let rest = count_tag-no_rows cs in omega arith

count_tag-detail_rows :
    (to_locale : ℕ → String) (cs : List CostItem)
    → count_tag_all "tr" (nodes (detail_rows to_locale cs)) ≡ length cs
unfolding count_tag detail_rows
count_tag-detail_rows to_locale [] = refl
count_tag-detail_rows to_locale (c ∷ cs) =
    let rest = count_tag-detail_rows to_locale cs in omega arith

count_tag-no_cells :
    (to_locale : ℕ → String) (cs : List CostItem)
    → count_tag_all "Cell" (nodes (detail_rows to_locale cs)) ≡ 0
unfolding count_tag detail_rows
count_tag-no_cells to_locale [] = refl
count_tag-no_cells to_locale (c ∷ cs) = let rest = count_tag-no_cells to_locale cs in omega arith

length-bars : (n : JsNumber) (costs : List CostItem) → length (bars n costs) ≡ length costs
unfolding bars chart_data
length-bars n [] = refl
length-bars n (c ∷ cs) = ap suc (length-bars n cs)

chart_cells :
    (n : JsNumber) (costs : List CostItem)
    → count_tag "Cell" (CostGraph.View.chart n costs) ≡ length costs
unfolding count_tag CostGraph.View.chart
chart_cells n [] = refl
chart_cells n (c ∷ cs) =
    let cells = count_tag-cells (bars n (c ∷ cs)) ∙ length-bars n (c ∷ cs) in omega arith

chart_rows :
    (n : JsNumber) (costs : List CostItem) → count_tag "tr" (CostGraph.View.chart n costs) ≡ 0
unfolding count_tag CostGraph.View.chart
chart_rows n [] = refl
chart_rows n (c ∷ cs) = let none_left = count_tag-no_rows (bars n (c ∷ cs)) in omega arith

-- Once the cost page has loaded it shows one bar and one table row for each listed agent, besides
-- the table's head, also where the list is empty and the chart gives way to a text; while it is
-- loading it shows neither.
pub cost_graph-bars :
    (to_locale : ℕ → String) (n : JsNumber) (s : CostGraph)
    → let page = CostGraph.View.render to_locale n s in
      (count_tag "Cell" page ≡ (if s.loading then 0 else length s.costs))
      × (count_tag "tr" page ≡ (if s.loading then 0 else suc (length s.costs)))
unfolding count_tag CostGraph.View.render
cost_graph-bars to_locale n s = elim (Bool-cases s.loading) [
  | inl l ↦ rw l (refl, refl)
  | inr l ↦ rw l (
    rw (count_tag-no_cells to_locale s.costs) (let c = chart_cells n s.costs in omega arith),
    rw (count_tag-detail_rows to_locale s.costs) (let c = chart_rows n s.costs in omega arith),
  )
]

clicks-badges :
    (g : Option (String × LiveAgents.Colour)) (p : Option String)
    → clicks_all (nodes (governance_badge g ++ phase_badge p)) ≡ []
unfolding clicks governance_badge phase_badge
clicks-badges none none = refl
clicks-badges none (some p) = refl
clicks-badges (some g) none = refl
clicks-badges (some g) (some p) = refl

clicks-proof_root :
    (r : Option String) (x : Node Click)
    → clicks_all (nodes (proof_root r ++ x ∷ [])) ≡ clicks x ++ []
unfolding clicks proof_root
clicks-proof_root none x = refl
clicks-proof_root (some r) x = refl

clicks-agent_card :
    (to_locale : ℕ → String) (a : AgentItem) → clicks (agent_card to_locale a) ≡ deleted a.name ∷ []
unfolding clicks agent_card card
clicks-agent_card to_locale a =
    rw (clicks-badges (card a).governance (card a).phase)
      (rw (clicks-proof_root (card a).zk_proof_root) refl)

clicks-agent_cards :
    (to_locale : ℕ → String) (as' : List AgentItem)
    → clicks_all (nodes (agent_cards to_locale as')) ≡ map (λ (a : AgentItem). deleted a.name) as'
unfolding clicks agent_cards
clicks-agent_cards to_locale [] = refl
clicks-agent_cards to_locale (a ∷ as') =
    rw (clicks-agent_card to_locale a)
      (ap (λ l. deleted a.name ∷ l) (clicks-agent_cards to_locale as'))

-- The page of live agents always offers a refresh, and a deletion of each agent that it shows.
pub live_agents-clicks :
    (to_locale : ℕ → String) (s : LiveAgents)
    → clicks (LiveAgents.View.render to_locale s)
      ≡ refreshed
        ∷ (if s.loading && is_nil s.agents
            then []
            else map (λ (a : AgentItem). deleted a.name) s.agents)
unfolding clicks LiveAgents.View.render
live_agents-clicks to_locale s = elim (Bool-cases (s.loading && is_nil s.agents)) [
  | inl l ↦ rw l refl
  | inr l ↦
      rw l (rw (clicks-agent_cards to_locale s.agents) (ap (λ l. refreshed ∷ l) (append-nil _)))
]
