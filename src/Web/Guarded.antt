-- ===== src/Web/Guarded.antt =====
-- The two pages with a form, as form pages: NewAgent.tsx and Login.tsx.
use ronak_agentk_runtime.Base.{
  String, Result, arith, true, false, Option, [], ◌≡◌, refl, inl, inr, Bool-cases, lookup,
  non_empty,
}
use ronak_agentk_runtime.Web.Browser.{Browser, Outcome, returned, thrown}
use ronak_agentk_runtime.Web.Markup.{submissions, can_submit}
use ronak_agentk_runtime.Web.NewAgent.{Submission, update, started, is_set}
use ronak_agentk_runtime.Web.NewAgent
use ronak_agentk_runtime.Web.NewAgent.View.{FormEvent, edited, submit}
use ronak_agentk_runtime.Web.Login.{LoginForm, submitted}
use ronak_agentk_runtime.Web.Login
use ronak_agentk_runtime.Web.Login.View.{LoginEvent, change_form}
use ronak_agentk_runtime.Web.InFlight.{FormPage, Live, Reach, IsGuarded, IsSingle, Reach-IsSingle}

abbrev pub change_field : FormEvent → Submission → Submission
change_field (edited key value) s = record s { form = update key value s.form }
change_field submit s = s

-- Before its first request, a page.
abbrev pub idle : {S E O : Type 0} (p : FormPage S E O) → S → Live p
idle p s = record { page = s; in_flight = 0 }

new_agent-closed : (s : Submission) → s.loading ≡ true → submissions (NewAgent.View.render s) ≡ []
unfolding NewAgent.View.render submissions can_submit
new_agent-closed s h = elim (Bool-cases (is_set (lookup "verifiableEnabled" s.form))) [
  | inl t ↦ elim (Bool-cases (non_empty s.error)) [
    | inl e ↦ rw t (rw e (rw h refl))
    | inr e ↦ rw t (rw e (rw h refl))
  ]
  | inr t ↦ elim (Bool-cases (non_empty s.error)) [
    | inl e ↦ rw t (rw e (rw h refl))
    | inr e ↦ rw t (rw e (rw h refl))
  ]
]

login-closed : (s : LoginForm) → s.loading ≡ true → submissions (Login.View.render s) ≡ []
unfolding Login.View.render submissions can_submit
login-closed s h = elim (Bool-cases (non_empty s.error)) [
  | inl e ↦ rw h (rw e refl)
  | inr e ↦ rw h (rw e refl)
]

module _ {J : Type 0} (b : Browser) where
  abbrev pub creation_settled : Outcome J → Submission → Submission
  creation_settled o s = let (b', s', path) = NewAgent.settled s.form (b, o) in s'

  abbrev pub new_agent_page : FormPage Submission FormEvent (Outcome J)
  new_agent_page = record {
    render = NewAgent.View.render;
    edit = change_field;
    start = started;
    settle = creation_settled;
    loading = λ s. s.loading;
  }

  abbrev pub login_settled : (J → Result (Option String)) → Outcome J → LoginForm → LoginForm
  login_settled token o s = let (b', s', path) = Login.settled token s (b, o) in s'

  abbrev pub login_page : (J → Result (Option String)) → FormPage LoginForm LoginEvent (Outcome J)
  login_page token = record {
    render = Login.View.render;
    edit = change_form;
    start = submitted;
    settle = login_settled token;
    loading = λ s. s.loading;
  }

  new_agent-IsGuarded : IsGuarded new_agent_page
  unfolding started
  new_agent-IsGuarded = record {
    edits = edit;
    starts = λ s. refl;
    settled = settle;
    closed = new_agent-closed;
  }
    where
      edit : (e : FormEvent) (s : Submission) → (change_field e s).loading ≡ s.loading
      edit (edited k v) s = refl
      edit submit s = refl

      settle : (o : Outcome J) (s : Submission) → (creation_settled o s).loading ≡ false
      settle (returned j) s = refl
      settle (thrown m) s = refl

  login-IsGuarded : (token : J → Result (Option String)) → IsGuarded (login_page token)
  unfolding submitted change_form
  login-IsGuarded token = record {
    edits = edit;
    starts = λ s. refl;
    settled = settle;
    closed = login-closed;
  }
    where
      edit : (e : LoginEvent) (s : LoginForm) → (change_form e s).loading ≡ s.loading
      edit (LoginEvent.typed_email v) s = refl
      edit (LoginEvent.typed_password v) s = refl
      edit LoginEvent.signed_in s = refl

      settle : (o : Outcome J) (s : LoginForm) → (login_settled token o s).loading ≡ false
      settle (returned j) s = ground arith
      settle (thrown m) s = refl

  -- On the page of a new agent, however changes of its controls, submissions that the page offers
  -- and replies follow each other, one creation request is in flight while the page is loading and
  -- none otherwise: the form cannot be sent twice.
  pub new_agent-IsSingle :
      {l : Live new_agent_page}
      → Reach new_agent_page
          (idle new_agent_page (record { form = NewAgent.initial; error = ""; loading = false }))
          l
      → IsSingle new_agent_page l
  new_agent-IsSingle r = Reach-IsSingle new_agent_page new_agent-IsGuarded r refl

  -- The same on the login page: one sign-in is in flight while it is loading and none otherwise.
  pub login-IsSingle :
      (token : J → Result (Option String)) {l : Live (login_page token)}
      → Reach (login_page token) (idle (login_page token) Login.initial) l
      → IsSingle (login_page token) l
  unfolding Login.initial
  login-IsSingle token r = Reach-IsSingle (login_page token) (login-IsGuarded token) r refl
