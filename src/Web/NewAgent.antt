-- ===== src/Web/NewAgent.antt =====
-- web-dashboard/frontend/src/pages/NewAgent.tsx
pub mod View
use ronak_agentk_runtime.Base.{
  ℕ, String, Bool, true, false, Option, none, some, [], ◌∷◌, Dict, insert, lookup, non_empty, map,
  ltb, if◌then◌else◌,
}
use ronak_agentk_runtime.Web.Browser.{Browser, Reply, Request, Outcome, returned, thrown}
use ronak_agentk_runtime.Web.Html.{InputValue, text, number, checked}
use ronak_agentk_runtime.Web.Fetch.{create_agent, call_api}

abbrev pub Form : Type 0
Form = Dict InputValue

unfoldable pub initial : Form
initial =
    ("name", text "")
    ∷ ("description", text "")
    ∷ ("instruction", text "")
    ∷ ("model", text "gemini/gemini-2.5-flash")
    ∷ ("replicas", number 1)
    ∷ ("apiKey", text "")
    ∷ ("maxMonthlyCost", text "")
    ∷ ("optimizationMode", text "")
    ∷ ("verifiableEnabled", checked false)
    ∷ ("proofMode", text "snark-groth16")
    ∷ ("autonomyLevel", number 3)
    ∷ ("strategy", text "")
    ∷ ("promptVersion", text "")
    ∷ []

-- `setForm({ ...form, [key]: value })`
unfoldable pub update : String → InputValue → Form → Form
update key v form = insert key v form

-- What is sent for a field: the value as it is, Number of it, or undefined.
pub data Sent : Type 0 where
  as_is : InputValue → Sent
  as_number : Option InputValue → Sent
  omitted : Sent

abbrev pub is_set : Option InputValue → Bool
is_set none = false
is_set (some (text s)) = non_empty s
is_set (some (number n)) = ltb 0 n
is_set (some (checked b)) = b

-- the object that handleSubmit builds
unfoldable pub payload : Form → Dict Sent
payload form =
    let cost = lookup "maxMonthlyCost" form in
    insert "autonomyLevel" (as_number (lookup "autonomyLevel" form)) (
      insert "maxMonthlyCost" (if is_set cost then as_number cost else omitted) (
        insert "replicas" (as_number (lookup "replicas" form)) (map (λ (k, v). (k, as_is v)) form)))

pub record Submission : Type 0 where
  pub form : Form
  pub error : String
  pub loading : Bool

-- handleSubmit up to its `await`
unfoldable pub started : Submission → Submission
started s = record s { loading = true; error = "" }

module _ {J : Type 0} where
  -- handleSubmit after its `await`, with the path that it navigates to
  abbrev pub settled : Form → Browser × Outcome J → Browser × Submission × Option String
  settled form (b, returned _) =
      (b, record { form = form; error = ""; loading = false }, some "/agents")
  settled form (b, thrown message) =
      (b, record { form = form; error = message; loading = false }, none)

  unfoldable pub handle_submit :
      (J → Option String)
      → (Dict Sent → String)
      → (Request → Reply J)
      → Browser
      → Submission
      → Browser × Submission × Option String
  unfolding started payload call_api
  handle_submit detail stringify send b s =
      settled (started s).form (call_api detail send b (create_agent (stringify (payload s.form))))
