-- ===== src/Web/Forms.antt =====
-- The controls of the forms: what they show, what a change does, and when the form can be sent.
use ronak_agentk_runtime.Base.{
  String, List, [], ◌∷◌, ◌++◌, map, ◌≡◌, refl, inl, inr, Bool-cases, lookup, lookup-insert, some,
  ◌==◌, non_empty, if◌then◌else◌,
}
use ronak_agentk_runtime.Web.Markup.{Control, controls}
use ronak_agentk_runtime.Web.Html.{InputValue}
use ronak_agentk_runtime.Web.Guarded.{change_field}
use ronak_agentk_runtime.Web.NewAgent.{update, Form, Submission, is_set}
use ronak_agentk_runtime.Web.NewAgent.View.{FormEvent, edited, render}

abbrev pub control : Form → String → Control FormEvent
control form key = record { shown = lookup key form; change = edited key }

-- The fields with a control, in the order of the page.
abbrev pub shown_keys : Form → List String
shown_keys form =
    "name"
    ∷ "description"
    ∷ "instruction"
    ∷ "model"
    ∷ "replicas"
    ∷ "apiKey"
    ∷ "maxMonthlyCost"
    ∷ "optimizationMode"
    ∷ "verifiableEnabled"
    ∷ ((if is_set (lookup "verifiableEnabled" form) then "proofMode" ∷ [] else [])
        ++ ("autonomyLevel" ∷ "strategy" ∷ "promptVersion" ∷ []))

controls-form : (s : Submission) → controls (render s) ≡ map (control s.form) (shown_keys s.form)
unfolding render controls
controls-form s = elim (Bool-cases (is_set (lookup "verifiableEnabled" s.form))) [
  | inl t ↦ elim (Bool-cases (non_empty s.error)) [
    | inl e ↦ rw t (rw e refl)
    | inr e ↦ rw t (rw e refl)
  ]
  | inr t ↦ elim (Bool-cases (non_empty s.error)) [
    | inl e ↦ rw t (rw e refl)
    | inr e ↦ rw t (rw e refl)
  ]
]

-- A change of a field's control leaves the others, the error and the state of the request.
pub record Updates (s : Submission) (key : String) (v : InputValue) (s' : Submission) : Type 0 where
  pub fields : (k : String) → lookup k s'.form ≡ (if key == k then some v else lookup k s.form)
  pub error : s'.error ≡ s.error
  pub loading : s'.loading ≡ s.loading

change_field-Updates :
    (s : Submission) (key : String) (v : InputValue)
    → Updates s key v (change_field ((control s.form key).change v) s)
unfolding update
change_field-Updates s key v = record {
  fields = λ k. lookup-insert key k v s.form;
  error = refl;
  loading = refl;
}

-- The controls of the page of a new agent are, in order, one for each field of the form, the proof
-- mode only where verifiable execution is checked, and each shows the field's value; and after a
-- change of a field's control the form has the new value under that field, every other field as it
-- was, and the page the error and the loading it had.
pub controls-render :
    (s : Submission)
    → (controls (render s) ≡ map (control s.form) (shown_keys s.form))
      × ((key : String) (v : InputValue)
          → Updates s key v (change_field ((control s.form key).change v) s))
controls-render s = (controls-form s, change_field-Updates s)
