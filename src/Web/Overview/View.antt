-- ===== src/Web/Overview/View.antt =====
-- What web-dashboard/frontend/src/pages/Dashboard.tsx returns.
use ronak_agentk_runtime.Base.{
  String, Option, List, [], ◌∷◌, ◌++◌, itoa, length, is_nil, if◌then◌else◌,
}
use ronak_agentk_runtime.Web.Browser.{or_default, JsNumber}
use ronak_agentk_runtime.Web.Overview.{
  Overview, Variant, success, warning, info, danger, Row, rows, total_cost, compliant_count,
  with_proofs,
}
use ronak_agentk_runtime.Web.Html.{attr, Node, words, svg, el, plain, says, when_text, dollars}

-- The page has no control whose change the page handles.
pub data NoEvent : Type 0 where

-- the classes that depend on the variant
unfoldable pub style : Variant → String
style success = "bg-emerald-50 text-emerald-700 border-emerald-200"
style warning = "bg-amber-50 text-amber-700 border-amber-200"
style info = "bg-blue-50 text-blue-700 border-blue-200"
style danger = "bg-red-50 text-red-700 border-red-200"

-- Badge
unfoldable pub badge : String × Variant → Node NoEvent
unfolding style
badge (t, variant) = el "span" (attr "class" (style variant) ∷ []) (words t ∷ [])

-- `<Link to=…>`
abbrev pub link : String → List (Node NoEvent) → Node NoEvent
link to children = el "a" (attr "href" to ∷ []) children

unfoldable pub stat_card : String → String → String → String → String → Node NoEvent
stat_card title value gradient light_bg text_colour = plain "div" (
    plain "div" (
      plain "div" (says "p" title ∷ el "p" (attr "class" text_colour ∷ []) (words value ∷ []) ∷ [])
      ∷ el "div" (attr "class" gradient ∷ []) (svg ∷ [])
      ∷ [])
    ∷ el "div" (attr "class" light_bg ∷ []) []
    ∷ [])

abbrev pub spinner : Node NoEvent
spinner = plain "div" (plain "div" (svg ∷ says "span" "Loading dashboard..." ∷ []) ∷ [])

unfoldable pub header : Node NoEvent
header = plain "div" (
    plain "div" (says "h2" "Dashboard" ∷ says "p" "Overview of your agent runtime environment" ∷ [])
    ∷ link "/agents/new" (svg ∷ words "Deploy Agent" ∷ [])
    ∷ [])

unfoldable pub no_agents : Node NoEvent
no_agents = plain "div" (
    plain "div" (svg ∷ [])
    ∷ says "h4" "No agents deployed yet"
    ∷ says "p" "Deploy your first AI agent to get started."
    ∷ link "/agents/new" (words "Deploy First Agent" ∷ [])
    ∷ [])

unfoldable pub table_head : Node NoEvent
table_head = plain "thead" (
    plain "tr" (
      says "th" "Agent"
      ∷ says "th" "Governance"
      ∷ says "th" "Lifecycle"
      ∷ says "th" "Monthly Cost"
      ∷ says "th" "Proof Mode"
      ∷ [])
    ∷ [])

-- `a.name?.[0]?.toUpperCase()` is the parameter `initial_of`.
module _ (initial_of : String → Option String) where
  unfoldable pub table_row : Row → Node NoEvent
  unfolding badge
  table_row r = plain "tr" (
      plain "td" (
        plain "div" (
          plain "div" (says "span" (or_default (initial_of r.name) "A") ∷ [])
          ∷ says "span" r.name
          ∷ [])
        ∷ [])
      ∷ plain "td" (badge r.governance ∷ [])
      ∷ plain "td" (badge r.lifecycle ∷ [])
      ∷ says "td" r.cost
      ∷ plain "td" (says "span" r.proof_mode ∷ [])
      ∷ [])

  abbrev pub table_rows : List Row → List (Node NoEvent)
  table_rows [] = []
  table_rows (r ∷ rs) = table_row r ∷ table_rows rs

  unfoldable pub agent_table : Overview → Node NoEvent
  unfolding table_head rows
  agent_table s =
      plain "div" (plain "table" (table_head ∷ plain "tbody" (table_rows (rows s)) ∷ []) ∷ [])

  unfoldable pub deployed_agents : Overview → Node NoEvent
  unfolding no_agents agent_table
  deployed_agents s = plain "div" (
      plain "div" (
        plain "div" (
          says "h3" "Deployed Agents"
          ∷ plain "p"
              (words (itoa (length s.agents)) ∷ words " agents running across your cluster" ∷ [])
          ∷ [])
        ∷ link "/agents" (words "View all →" ∷ [])
        ∷ [])
      ∷ (if is_nil s.agents then no_agents else agent_table s)
      ∷ [])

  module _ (n : JsNumber) where
    unfoldable pub stat_cards : Overview → Node NoEvent
    unfolding stat_card total_cost compliant_count with_proofs
    stat_cards s = plain "div" (
        stat_card "Total Agents" (itoa (length s.agents)) "from-indigo-500 to-blue-600"
          "bg-indigo-50" "text-indigo-700"
        ∷ stat_card "Monthly Cost (est)" (dollars (n.to_fixed_2 (total_cost n s)))
            "from-emerald-500 to-teal-600" "bg-emerald-50" "text-emerald-700"
        ∷ stat_card "Governance Compliant" (itoa (compliant_count s)) "from-blue-500 to-cyan-600"
            "bg-blue-50" "text-blue-700"
        ∷ stat_card "ZK-Proof Protected" (itoa (with_proofs s)) "from-purple-500 to-violet-600"
            "bg-purple-50" "text-purple-700"
        ∷ [])

    unfoldable pub render : Overview → Node NoEvent
    unfolding header stat_cards deployed_agents
    render s =
        if s.loading
        then spinner
        else plain "div" (
            header
            ∷ (when_text s.error (plain "div" (svg ∷ words s.error ∷ []))
                ++ (stat_cards s ∷ deployed_agents s ∷ [])))
