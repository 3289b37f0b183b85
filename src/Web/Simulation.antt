-- ===== src/Web/Simulation.antt =====
-- web-dashboard/frontend/src/pages/Simulation.tsx
use ronak_agentk_runtime.Base.{
  ℕ, String, Bool, true, false, Option, none, some, List, [], ◌∷◌, if◌then◌else◌,
}
use ronak_agentk_runtime.Web.Browser.{Browser, Reply, Request, Outcome, returned, thrown, is_truthy}
use ronak_agentk_runtime.Web.Html.{text, number, checked}
use ronak_agentk_runtime.Web.NewAgent.{Form}
use ronak_agentk_runtime.Web.Fetch.{preview_simulation, call_api}

unfoldable pub initial_form : Form
initial_form =
    ("name", text "test-agent")
    ∷ ("replicas", number 1)
    ∷ ("maxMonthlyCost", number 50)
    ∷ ("verifiableEnabled", checked false)
    ∷ []

-- What the backend's preview holds; `error` is set only by the page itself.
pub record Preview : Type 0 where
  pub error : Option String
  pub estimated_resources : Option (ℕ × ℕ × ℕ)
  pub estimated_monthly_cost : String
  pub warnings : Option (List String)
  pub yaml : String

abbrev failure : String → Preview
failure message = record {
  error = some message;
  estimated_resources = none;
  estimated_monthly_cost = "";
  warnings = none;
  yaml = "";
}

pub record Simulation : Type 0 where
  pub form : Form
  pub result : Option Preview
  pub loading : Bool

unfoldable pub started : Simulation → Simulation
started s = record s { loading = true }

-- runPreview after its `await`
unfoldable pub settled : Simulation → Outcome Preview → Simulation
settled s (returned p) = record s { result = some p; loading = false }
settled s (thrown message) = record s { result = some (failure message); loading = false }

unfoldable pub run_preview :
    (Preview → Option String)
    → (Form → String)
    → (Request → Reply Preview)
    → Browser
    → Simulation
    → Browser × Simulation
unfolding started settled call_api
run_preview detail stringify send b s =
    let (b', r) = call_api detail send b (preview_simulation (stringify s.form)) in
    (b', settled (started s) r)

-- The panel of the result: nothing, an error, or the estimate with its warnings (if any) and
-- the generated YAML.
pub data Panel : Type 0 where
  nothing : Panel
  failed : String → Panel
  estimate : Option (ℕ × ℕ × ℕ) → String → Option (List String) → String → Panel

abbrev some_warnings : Option (List String) → Option (List String)
some_warnings none = none
some_warnings (some []) = none
some_warnings (some (w ∷ ws)) = some (w ∷ ws)

abbrev message_of : Option String → String
message_of none = ""
message_of (some m) = m

unfoldable pub panel : Option Preview → Panel
panel none = nothing
panel (some p) =
    if is_truthy p.error
    then failed (message_of p.error)
    else estimate p.estimated_resources p.estimated_monthly_cost (some_warnings p.warnings) p.yaml

-- the label of the button, which is disabled while `loading`
abbrev pub button : Simulation → String
button s = if s.loading then "Simulating..." else "Run Simulation"
