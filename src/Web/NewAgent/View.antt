-- ===== src/Web/NewAgent/View.antt =====
-- The form that web-dashboard/frontend/src/pages/NewAgent.tsx returns.
use ronak_agentk_runtime.Base.{
  String, Bool, true, false, List, [], ◌∷◌, ◌++◌, lookup, if◌then◌else◌,
}
use ronak_agentk_runtime.Web.Html.{
  InputValue, Attr, attr, flag, shows, on_change, on_submit, Node, words, el, plain, says, when,
  when_text,
}
use ronak_agentk_runtime.Web.NewAgent.{Form, Submission, is_set}

pub data FormEvent : Type 0 where
  -- `update(key, value)`
  edited : String → InputValue → FormEvent
  -- handleSubmit
  submit : FormEvent

unfoldable pub section : String → List (Node FormEvent) → Node FormEvent
section title children = plain "div" (says "h3" title ∷ plain "div" children ∷ [])

unfoldable pub field : String → Bool → List (Node FormEvent) → Node FormEvent
field label required children =
    plain "div" (plain "label" (words label ∷ when required (says "span" " *")) ∷ children)

-- `<input value={form.key} onChange={e => update('key', e.target.value)} …/>`
unfoldable pub input : Form → String → List (Attr FormEvent) → Node FormEvent
unfolding lookup
input form key attrs = el "input" (shows (lookup key form) ∷ on_change (edited key) ∷ attrs) []

unfoldable pub textarea : Form → String → List (Attr FormEvent) → Node FormEvent
unfolding lookup
textarea form key attrs =
    el "textarea" (shows (lookup key form) ∷ on_change (edited key) ∷ attrs) []

abbrev options : List (String × String) → List (Node FormEvent)
options [] = []
options ((value, label) ∷ rest) =
    el "option" (attr "value" value ∷ []) (words label ∷ []) ∷ options rest

unfoldable pub select : Form → String → List (String × String) → Node FormEvent
unfolding lookup
select form key choices =
    el "select" (shows (lookup key form) ∷ on_change (edited key) ∷ []) (options choices)

abbrev pub optimization_modes : List (String × String)
optimization_modes =
    ("", "None")
    ∷ ("conservative", "Conservative (90%)")
    ∷ ("auto", "Auto (80%)")
    ∷ ("aggressive", "Aggressive (70%)")
    ∷ []

abbrev pub proof_modes : List (String × String)
proof_modes =
    ("merkle-only", "Merkle Only (Free)")
    ∷ ("snark-groth16", "Groth16 zk-SNARK (Standard)")
    ∷ ("plonk-universal", "PlonK Universal (Premium $49/mo)")
    ∷ []

abbrev pub strategies : List (String × String)
strategies =
    ("", "Default")
    ∷ ("rolling", "Rolling")
    ∷ ("canary", "Canary")
    ∷ ("blue-green", "Blue-Green")
    ∷ []

abbrev placeholder : String → Attr FormEvent
placeholder t = attr "placeholder" t

unfoldable pub basic_section : Form → Node FormEvent
unfolding section field input textarea
basic_section form = section "Basic Configuration" (
    field "Agent Name" true
      (input form "name" (placeholder "my-agent" ∷ flag "required" true ∷ []) ∷ [])
    ∷ field "Description" false
        (input form "description" (placeholder "A helpful assistant" ∷ []) ∷ [])
    ∷ field "System Instruction" false
        (textarea form "instruction" (placeholder "You are a helpful AI assistant..." ∷ []) ∷ [])
    ∷ plain "div" (
        field "Model" false (input form "model" [] ∷ [])
        ∷ field "Replicas" false (
            input form "replicas" (attr "type" "number" ∷ attr "min" "1" ∷ attr "max" "10" ∷ [])
            ∷ [])
        ∷ [])
    ∷ field "API Key" false (
        input form "apiKey" (attr "type" "password" ∷ placeholder "Your Gemini/OpenAI key" ∷ [])
        ∷ [])
    ∷ [])

unfoldable pub cost_section : Form → Node FormEvent
unfolding section field input select
cost_section form = section "Cost Intelligence" (
    plain "div" (
      field "Max Monthly Cost ($)" false (input form "maxMonthlyCost" (placeholder "100" ∷ []) ∷ [])
      ∷ field "Optimization Mode" false (select form "optimizationMode" optimization_modes ∷ [])
      ∷ [])
    ∷ [])

unfoldable pub verifiable_section : Form → Node FormEvent
unfolding section field input select lookup
verifiable_section form = section "Verifiable Execution (ZK Proofs)" (
    plain "label" (
      input form "verifiableEnabled" (attr "type" "checkbox" ∷ [])
      ∷ says "span" "Enable cryptographic proof chain"
      ∷ [])
    ∷ when (is_set (lookup "verifiableEnabled" form))
        (field "Proof Mode" false (select form "proofMode" proof_modes ∷ [])))

unfoldable pub governance_section : Form → Node FormEvent
unfolding section field input
governance_section form = section "Governance" (
    field "Autonomy Level (1-5)" false (
      input form "autonomyLevel" (attr "type" "range" ∷ attr "min" "1" ∷ attr "max" "5" ∷ [])
      ∷ plain "div" (
          says "span" "1: Human required"
          ∷ says "span" "3: Compliant"
          ∷ says "span" "5: Autonomous"
          ∷ [])
      ∷ [])
    ∷ [])

unfoldable pub lifecycle_section : Form → Node FormEvent
unfolding section field input select
lifecycle_section form = section "Lifecycle" (
    plain "div" (
      field "Deployment Strategy" false (select form "strategy" strategies ∷ [])
      ∷ field "Prompt Version" false (input form "promptVersion" (placeholder "v1.0.0" ∷ []) ∷ [])
      ∷ [])
    ∷ [])

unfoldable pub render : Submission → Node FormEvent
unfolding basic_section cost_section verifiable_section governance_section lifecycle_section
render s = plain "div" (
    says "h2" "Create New Agent"
    ∷ el "form" (on_submit submit ∷ []) (
        basic_section s.form
        ∷ cost_section s.form
        ∷ verifiable_section s.form
        ∷ governance_section s.form
        ∷ lifecycle_section s.form
        ∷ (when_text s.error (says "p" s.error)
            ++ (el "button" (attr "type" "submit" ∷ flag "disabled" s.loading ∷ [])
                  (words (if s.loading then "Creating..." else "Create Agent") ∷ [])
                ∷ [])))
    ∷ [])
