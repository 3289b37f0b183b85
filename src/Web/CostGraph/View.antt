-- ===== src/Web/CostGraph/View.antt =====
-- What web-dashboard/frontend/src/pages/CostGraph.tsx returns; the chart's components are elements.
use ronak_agentk_runtime.Base.{ℕ, String, List, [], ◌∷◌, itoa, length, is_nil, if◌then◌else◌}
use ronak_agentk_runtime.Web.Browser.{JsNumber}
use ronak_agentk_runtime.Web.Overview.{CostItem}
use ronak_agentk_runtime.Web.Overview.View.{NoEvent}
use ronak_agentk_runtime.Web.CostGraph.{CostGraph, bars, table_row, total_cost, total_tokens}
use ronak_agentk_runtime.Web.Html.{attr, Node, words, el, plain, says, dollars}

abbrev pub loading_text : Node NoEvent
loading_text = says "div" "Loading cost data..."

unfoldable pub figure : String → String → Node NoEvent
figure title value = plain "div" (says "p" title ∷ says "p" value ∷ [])

unfoldable pub cells : List String → List (Node NoEvent)
cells [] = []
cells (c ∷ cs) = el "Cell" (attr "fill" c ∷ []) [] ∷ cells cs

unfoldable pub bar_chart : List String → Node NoEvent
unfolding cells
bar_chart colours = plain "ResponsiveContainer" (
    plain "BarChart" (
      plain "CartesianGrid" []
      ∷ el "XAxis" (attr "dataKey" "name" ∷ []) []
      ∷ plain "YAxis" []
      ∷ plain "Tooltip" []
      ∷ el "Bar" (attr "dataKey" "cost" ∷ []) (cells colours)
      ∷ [])
    ∷ [])

unfoldable pub chart : (n : JsNumber) → List CostItem → Node NoEvent
unfolding bar_chart bars
chart n costs = plain "div" (
    says "h3" "Cost per Agent"
    ∷ (if is_nil costs
        then says "p" "No cost data available. Deploy agents with costBudget configured."
        else bar_chart (bars n costs))
    ∷ [])

unfoldable pub table_head : Node NoEvent
table_head = plain "thead" (
    plain "tr" (
      says "th" "Agent" ∷ says "th" "Predicted Cost" ∷ says "th" "Tokens" ∷ says "th" "Action" ∷ [])
    ∷ [])

-- `toLocaleString` is the parameter `to_locale`.
module _ (to_locale : ℕ → String) where
  unfoldable pub detail_row : String × String × ℕ × (String × String) → Node NoEvent
  detail_row (name, cost, tokens, (action, colour)) = plain "tr" (
      says "td" name
      ∷ says "td" cost
      ∷ says "td" (to_locale tokens)
      ∷ plain "td" (el "span" (attr "class" colour ∷ []) (words action ∷ []) ∷ [])
      ∷ [])

  unfoldable pub detail_rows : List CostItem → List (Node NoEvent)
  unfolding detail_row table_row
  detail_rows [] = []
  detail_rows (c ∷ cs) = detail_row (table_row c) ∷ detail_rows cs

  module _ (n : JsNumber) where
    unfoldable pub figures : List CostItem → Node NoEvent
    unfolding figure total_cost total_tokens
    figures costs = plain "div" (
        figure "Total Monthly Cost" (dollars (n.to_fixed_2 (total_cost n costs)))
        ∷ figure "Total Tokens Used" (to_locale (total_tokens n costs))
        ∷ figure "Agents Monitored" (itoa (length costs))
        ∷ [])

    unfoldable pub details : List CostItem → Node NoEvent
    unfolding table_head detail_rows
    details costs = plain "div" (
        says "h3" "Agent Cost Details"
        ∷ plain "table" (table_head ∷ plain "tbody" (detail_rows costs) ∷ [])
        ∷ [])

    unfoldable pub render : CostGraph → Node NoEvent
    unfolding figures chart details
    render s =
        if s.loading
        then loading_text
        else plain "div" (
            says "h2" "Cost Intelligence"
            ∷ figures s.costs
            ∷ chart n s.costs
            ∷ details s.costs
            ∷ [])
