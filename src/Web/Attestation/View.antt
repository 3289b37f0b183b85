-- ===== src/Web/Attestation/View.antt =====
-- What web-dashboard/frontend/src/pages/Attestation.tsx returns.
use ronak_agentk_runtime.Base.{
  String, Bool, Option, none, some, List, [], ◌∷◌, ◌++◌, is_nil, if◌then◌else◌,
}
use ronak_agentk_runtime.Web.Attestation.{AttestationItem, Attestation, card, detail_rows}
use ronak_agentk_runtime.Web.LiveAgents.{shown}
use ronak_agentk_runtime.Web.Html.{attr, on_click, Node, words, el, plain, says}

pub data AttestationClick : Type 0 where
  -- `loadDetail(a.name)`
  opened : String → AttestationClick
  -- the selected report as a file
  downloaded : AttestationItem → AttestationClick

abbrev verified_class : Bool → String
verified_class verified =
    if verified then "bg-green-100 text-green-700" else "bg-red-100 text-red-700"

abbrev selected_class : Bool → String
selected_class selected =
    if selected then "border-agentk-500 ring-2 ring-agentk-100" else "border-gray-200"

abbrev last_attestation : Option String → List (Node AttestationClick)
last_attestation none = []
last_attestation (some t) = plain "p" (words "Last attestation: " ∷ words t ∷ []) ∷ []

unfoldable pub attestation_card : Attestation → AttestationItem → Node AttestationClick
unfolding card
attestation_card s a =
    let (title, subtitle, label, time, selected) = card s a in
    el "div" (on_click (opened a.name) ∷ attr "class" (selected_class selected) ∷ []) (
      plain "div" (
        plain "div" (says "h3" title ∷ says "p" subtitle ∷ [])
        ∷ el "span" (attr "class" (verified_class a.verified) ∷ []) (words label ∷ [])
        ∷ [])
      ∷ last_attestation time)

unfoldable pub attestation_cards : Attestation → List AttestationItem → List (Node AttestationClick)
unfolding attestation_card
attestation_cards s [] = []
attestation_cards s (a ∷ as') = attestation_card s a ∷ attestation_cards s as'

-- DetailRow
unfoldable pub detail_nodes : List (String × String) → List (Node AttestationClick)
detail_nodes [] = []
detail_nodes ((label, value) ∷ rest) =
    plain "div" (says "dt" label ∷ says "dd" value ∷ []) ∷ detail_nodes rest

abbrev digest : Option String → List (Node AttestationClick)
digest none = []
digest (some report) = plain "div" (says "p" "Attestation Digest" ∷ says "pre" report ∷ []) ∷ []

unfoldable pub detail_panel : Option AttestationItem → List (Node AttestationClick)
unfolding detail_nodes detail_rows
detail_panel none = []
detail_panel (some d) =
    plain "div" (
      plain "h3" (words "Attestation Detail: " ∷ words d.name ∷ [])
      ∷ plain "dl" (detail_nodes (detail_rows d))
      ∷ (digest (shown d.attestation_report)
          ++ (el "button" (on_click (downloaded d) ∷ []) (words "Download Report" ∷ []) ∷ [])))
    ∷ []

unfoldable pub render : Attestation → Node AttestationClick
unfolding attestation_cards detail_panel
render s =
    if s.loading
    then says "div" "Loading attestation data..."
    else plain "div" (
        says "h2" "TEE Attestation Reports"
        ∷ plain "div" (
            plain "div" (
              if is_nil s.attestations
              then says "div"
                  "No ConfidentialAgents deployed. Create one with TEE hardware attestation."
                ∷ []
              else attestation_cards s s.attestations)
            ∷ detail_panel s.selected)
        ∷ [])
