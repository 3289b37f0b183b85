-- ===== src/Web/RoundTrips.antt =====
-- What is typed and what is sent: the fields of a new agent in the request's body, and the token of
-- a sign-in in the calls that follow.
use ronak_agentk_runtime.Base.{
  ℕ, String, true, false, Option, none, some, [], ◌∷◌, ◌≡◌, refl, ap, arith, eq_refl, Dict, lookup,
  insert, lookup-insert, map, non_empty, ◌==◌, eq_iff, inl, inr, Bool-cases, ◌∙◌, Result, ok,
  if◌then◌else◌,
}
use Prim.Native.String.{◌++◌}
use ronak_agentk_runtime.Web.Browser.{
  Browser, value, Reply, answered, is_ok, Request, returned, stored,
}
use ronak_agentk_runtime.Web.Fetch.{
  Call, login, call_api, call_path, call_options, build_request, settle, fetch_api,
}
use ronak_agentk_runtime.Web.Routes.{Page, with_sidebar, route, is_logged_in, protected_layout}
use ronak_agentk_runtime.Web.Login.{LoginForm, submitted, settled, handle_login}
use ronak_agentk_runtime.Web.Html.{InputValue}
use ronak_agentk_runtime.Web.NewAgent.{
  Form, Sent, as_is, as_number, omitted, is_set, update, payload,
}
use ronak_agentk_runtime.Web.Session.{build_request-authorization}

-- How a field's value is sent.
abbrev pub sent_as : String → InputValue → Sent
sent_as key v =
    if "autonomyLevel" == key
    then as_number (some v)
    else if "maxMonthlyCost" == key
    then if is_set (some v) then as_number (some v) else omitted
    else if "replicas" == key
    then as_number (some v)
    else as_is v

abbrev as_sent : Option InputValue → Option Sent
as_sent none = none
as_sent (some v) = some (as_is v)

lookup-as_is :
    (key : String) (form : Form)
    → lookup key (map (λ (k, v). (k, as_is v)) form) ≡ as_sent (lookup key form)
unfolding lookup
lookup-as_is key [] = refl
lookup-as_is key ((k, v) ∷ rest) = elim (Bool-cases (k == key)) [
  | inl t ↦ rw t refl
  | inr f ↦ rw f (lookup-as_is key rest)
]

lookup-update :
    (name key : String) (v : InputValue) (form : Form)
    → (name == key) ≡ true
    → lookup name (insert key v form) ≡ some v
lookup-update name key v form e =
    lookup-insert key name v form ∙ ground (arith, eq_iff name key, eq_iff key name)

-- Whatever value is typed into whatever field of the form, the request's object has that value
-- under the field's name: as a number for the replicas, the autonomy level and a monthly cost that
-- is set, as undefined for one that is not, and unchanged for every other field.
pub payload-update :
    (key : String) (v : InputValue) (form : Form)
    → lookup key (payload (update key v form)) ≡ some (sent_as key v)
unfolding payload update
payload-update key v form = elim (Bool-cases ("autonomyLevel" == key)) [
  | inl a ↦
      lookup-insert "autonomyLevel" key _ _
      ∙ rw a (ap (λ x. some (as_number x)) (lookup-update "autonomyLevel" key v form a))
  | inr a ↦
      lookup-insert "autonomyLevel" key _ _
      ∙ rw a (elim (Bool-cases ("maxMonthlyCost" == key)) [
        | inl c ↦
            lookup-insert "maxMonthlyCost" key _ _
            ∙ rw c (
                ap (λ x. some (if is_set x then as_number x else omitted))
                  (lookup-update "maxMonthlyCost" key v form c))
        | inr c ↦
            lookup-insert "maxMonthlyCost" key _ _
            ∙ rw c (elim (Bool-cases ("replicas" == key)) [
              | inl r ↦
                  lookup-insert "replicas" key _ _
                  ∙ rw r (ap (λ x. some (as_number x)) (lookup-update "replicas" key v form r))
              | inr r ↦
                  lookup-insert "replicas" key _ _
                  ∙ rw r (
                      lookup-as_is key (insert key v form)
                      ∙ ap as_sent (lookup-update key key v form (eq_refl key)))
            ])
      ])
]

module _ {J : Type 0} (detail : J → Option String) (token : J → Result (Option String))
    (stringify : Dict String → String) where
  abbrev pub login_call : LoginForm → Call
  login_call s = login (stringify (("email", s.email) ∷ ("password", s.password) ∷ []))

  abbrev pub request_of : Browser → Call → Request
  request_of b c = build_request b (call_path c) (call_options c)

  settle-ok :
      (b : Browser) (status : ℕ) (t : String) (j : J)
      → is_ok status ≡ true
      → settle detail b (answered status t (value j)) ≡ (b, returned j)
  unfolding settle
  settle-ok b status t j fine = ground arith

  handle_login-ok :
      (send : Request → Reply J) (b : Browser) (s : LoginForm) (status : ℕ) (t : String) (j : J)
      (o : Option String)
      → send (request_of b (login_call s)) ≡ answered status t (value j)
      → is_ok status ≡ true
      → token j ≡ ok o
      → handle_login token detail stringify send b s
        ≡ (record b { token = some (stored o) }, record s { loading = false; error = "" }, some "/")
  unfolding handle_login call_api fetch_api submitted
  handle_login-ok send b s status t j o e fine has =
      let out : call_api detail send b (login_call s) ≡ (b, returned j) =
        ap (settle detail b) e ∙ settle-ok b status t j fine in
      ap (settled token (submitted s)) out ∙ rw has refl

  -- If the server answers a sign-in with a status from 200 to 299 and a JSON body whose token can
  -- be read, what is stored of the token is not empty, and the router takes the path / as it is,
  -- the page navigates to / and the dashboard is shown there, and every later call carries the
  -- stored token as its bearer token; of a body without a token the text undefined is stored.
  pub handle_login-authorization :
      (match_form : String → String) (send : Request → Reply J) (b : Browser) (s : LoginForm)
      (status : ℕ) (t : String) (j : J) (o : Option String)
      → match_form "/" ≡ "/"
      → send (request_of b (login_call s)) ≡ answered status t (value j)
      → is_ok status ≡ true
      → token j ≡ ok o
      → non_empty (stored o) ≡ true
      → let (b', s', path) = handle_login token detail stringify send b s in
        (path ≡ some "/")
        × (route match_form b' "/" ≡ some (with_sidebar Page.dashboard))
        × ((c : Call)
            → lookup "Authorization" (request_of b' c).headers ≡ some ("Bearer " ++ stored o))
  unfolding route protected_layout is_logged_in
  handle_login-authorization match_form send b s status t j o root e fine has h =
      let after : Browser = record b { token = some (stored o) } in
      rw (handle_login-ok send b s status t j o e fine has)
        (refl, rw (root, h) refl, λ c. build_request-authorization after c ∙ rw h refl)
