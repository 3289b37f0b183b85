-- ===== src/Web/Session.antt =====
-- The session: what the token in the browser lets a user see, and how the API calls end it.
use ronak_agentk_runtime.Base.{
  ℕ, String, Bool, true, false, Option, none, some, [], ◌∷◌, ◌≡◌, ◌∙◌, ◌⊎◌, refl, arith, eqb,
  lookup, insert, copy, if◌then◌else◌, All,
}
use Prim.Native.String.{◌++◌}
use ronak_agentk_runtime.Web.Browser.{
  Browser, value, malformed, Reply, unreachable, answered, is_ok, is_truthy, Request, returned,
}
use ronak_agentk_runtime.Web.Fetch.{
  Call, call_api, call_path, call_options, build_request, settle, logged_out, authorize,
  upload_kubeconfig,
}
use ronak_agentk_runtime.Web.Routes.{
  Page, login_page, View, bare, with_sidebar, navigate, is_logged_in, protected_layout, route,
  NavItem, nav,
}

-- What may be shown without a session.
abbrev pub IsPublic : View → Type 0
IsPublic v = (v ≡ bare login_page) ⊎ (v ≡ navigate "/login")

-- Without a session every path that renders anything renders the login page by itself or redirects
-- to it.
pub route-IsPublic :
    (match_form : String → String) (b : Browser) (path : String) (v : View)
    → is_logged_in b ≡ false
    → route match_form b path ≡ some v
    → IsPublic v
unfolding route protected_layout
route-IsPublic match_form b path v h e = ground arith

-- With a session every entry of the sidebar's menu is a path of the router as it stands, and opens a
-- page beside the sidebar.
pub nav-route :
    (b : Browser)
    → is_logged_in b ≡ true
    → All (λ (i : NavItem). (p : Page) × (route (λ s. s) b i.path ≡ some (with_sidebar p))) nav
unfolding nav route protected_layout
nav-route b h = (
  (Page.dashboard, rw h),
  (
    (Page.live_agents, rw h),
    (
      (Page.new_agent, rw h),
      ((Page.cost_graph, rw h), ((Page.attestation, rw h), ((Page.simulation, rw h), tt))),
    ),
  ),
)

module _ {J : Type 0} (detail : J → Option String) where
  -- A reply that is a 401.
  abbrev pub is_unauthorized : Reply J → Bool
  is_unauthorized (unreachable _) = false
  is_unauthorized (answered status _ _) = eqb status 401

  settle_session :
      (b : Browser) (r : Reply J)
      → ((settle detail b r).0 ≡ (if is_unauthorized r then logged_out b else b))
  unfolding settle
  settle_session b (unreachable m) = refl
  settle_session b (answered status t body) = ground arith

  pub call_api-session :
      (send : Request → Reply J) (b : Browser) (c : Call)
      → (call_api detail send b c).0 ≡ (
          if is_unauthorized (send (build_request b (call_path c) (call_options c)))
          then logged_out b
          else b)
  unfolding call_api
  call_api-session send b c =
      settle_session b (send (build_request b (call_path c) (call_options c)))

  upload_kubeconfig-session :
      (send : Request → Reply J) (b : Browser) (form : String)
      → (upload_kubeconfig detail send b form).0 ≡ b
  unfolding upload_kubeconfig
  upload_kubeconfig-session send b form = ground arith

  -- After an API call through fetchAPI that the server answers with 401, the dashboard shows no
  -- protected page: whatever path is opened, and however the router normalises it, it renders
  -- nothing, the login page by itself or a redirection to it. The upload of a kubeconfig is no
  -- such call: it leaves the session as it was, whatever the server answers.
  pub call_api-revokes :
      (match_form : String → String) (send : Request → Reply J) (b : Browser) (c : Call)
      (path form : String) (v : View)
      → is_unauthorized (send (build_request b (call_path c) (call_options c))) ≡ true
      → route match_form (call_api detail send b c).0 path ≡ some v
      → IsPublic v × ((upload_kubeconfig detail send b form).0 ≡ b)
  call_api-revokes match_form send b c path form v refused e =
      let out : (call_api detail send b c).0 ≡ logged_out b =
        call_api-session send b c ∙ (rw refused) in
      (
        route-IsPublic match_form (logged_out b) path v (unfold is_logged_in in refl) (rw out at e),
        upload_kubeconfig-session send b form,
      )

  settle_returned :
      (b : Browser) (r : Reply J) (j : J)
      → (settle detail b r).1 ≡ returned j
      → (status : ℕ) × (text : String) × (r ≡ answered status text (value j))
        × (is_ok status ≡ true)
  unfolding settle
  settle_returned b (unreachable m) j e = cc
  settle_returned b (answered status t (value k)) j e = (status, t, ground arith, ground arith)
  settle_returned b (answered status t (malformed m)) j e = absurd (ground arith)

  -- An API call returns a value only if the server answered with a status from 200 to 299 and a
  -- body that parses to that value.
  pub call_api-returned :
      (send : Request → Reply J) (b : Browser) (c : Call) (j : J)
      → (call_api detail send b c).1 ≡ returned j
      → (status : ℕ) × (text : String) × (send (build_request b (call_path c) (call_options c))
          ≡ answered status text (value j))
        × (is_ok status ≡ true)
  unfolding call_api
  call_api-returned send b c j e =
      settle_returned b (send (build_request b (call_path c) (call_options c))) j e

-- The authorization header of a request is the session's.
abbrev pub token_text : Option String → String
token_text none = ""
token_text (some t) = t

call_options-headers : (c : Call) → (call_options c).headers ≡ []
unfolding call_options
call_options-headers (Call.login _) = refl
call_options-headers _ = refl

lookup-authorize :
    (t : Option String)
    → lookup "Authorization" (authorize t (("Content-Type", "application/json") ∷ []))
      ≡ (if is_truthy t then some ("Bearer " ++ token_text t) else none)
unfolding lookup insert
lookup-authorize none = refl
lookup-authorize (some t) = ground arith

-- Every call of the API carries the session's token as its bearer token, and no authorization
-- header where there is no token or an empty one.
pub build_request-authorization :
    (b : Browser) (c : Call)
    → lookup "Authorization" (build_request b (call_path c) (call_options c)).headers
      ≡ (if is_truthy b.token then some ("Bearer " ++ token_text b.token) else none)
unfolding build_request copy
build_request-authorization b c = rw (call_options-headers c) (lookup-authorize b.token)
