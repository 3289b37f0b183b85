-- ===== src/Web/PageTests.antt =====
-- Runs of the dashboard's pages: their forms, their tables and their requests.
use ronak_agentk_runtime.Base.{
  ℕ, Result, ok, ◌+◌, String, false, Option, none, some, [], ◌∷◌, map, ◌≡◌, refl, lookup,
}
use Prim.Native.String.{◌++◌}
use mathlib.Core.List.{Memᴰ}
use ronak_agentk_runtime.Web.Browser.{Browser, value, Reply, answered, Request, JsNumber}
use ronak_agentk_runtime.Web.Fetch.{Call}
use ronak_agentk_runtime.Web.Routes.{Page, with_sidebar, route}
use ronak_agentk_runtime.Web.Html.{InputValue, text}
use ronak_agentk_runtime.Web.Markup.{controls, submissions, can_submit}
use ronak_agentk_runtime.Web.CostGraph.{CostGraph}
use ronak_agentk_runtime.Web.NewAgent.{Submission, initial, update, payload, started}
use ronak_agentk_runtime.Web.NewAgent.View.{submit, render}
use ronak_agentk_runtime.Web.Login.{LoginForm, handle_login}
use ronak_agentk_runtime.Web.InFlight.{Live, Reach, Step, IsSingle}
use ronak_agentk_runtime.Web.Guarded.{change_field, new_agent_page, idle, new_agent-IsSingle}
use ronak_agentk_runtime.Web.RoundTrips.{
  sent_as, payload-update, request_of, handle_login-authorization,
}
use ronak_agentk_runtime.Web.Forms.{control, shown_keys, Updates, controls-render}

abbrev fresh : Submission
fresh = record { form = initial; error = ""; loading = false }

controls-render_example :
    (controls (render fresh) ≡ map (control initial) (shown_keys initial))
    × ((key : String) (v : InputValue)
        → Updates fresh key v (change_field ((control initial key).change v) fresh))
controls-render_example = controls-render fresh

abbrev page : Browser
page = record { token = some "t1"; location = "/agents/new" }

abbrev first_request : Live (new_agent_page {J = ℕ} page)
first_request = record { page = started fresh; in_flight = 1 }

new_agent-IsSingle_example : IsSingle (new_agent_page {J = ℕ} page) first_request
unfolding render submissions can_submit lookup initial
new_agent-IsSingle_example =
    new_agent-IsSingle {J = ℕ} page (
      Reach.next Reach.here (Step.sends (idle (new_agent_page page) fresh) submit (Memᴰ.head refl)))

payload-update_example :
    lookup "maxMonthlyCost" (payload (update "maxMonthlyCost" (text "100") initial))
    ≡ some (sent_as "maxMonthlyCost" (text "100"))
payload-update_example = payload-update "maxMonthlyCost" (text "100") initial

-- A server whose replies are a token.
abbrev grants : Request → Reply String
grants _ = answered 200 "OK" (value "t2")

abbrev no_detail : String → Option String
no_detail _ = none

abbrev to_text : {A : Type 0} → A → String
to_text _ = "{}"

abbrev out : Browser
out = record { token = none; location = "/login" }

abbrev ok_token : String → Result (Option String)
ok_token j = ok (some j)

abbrev typed : LoginForm
typed = record { email = "a@b"; password = "p"; error = ""; loading = false }

handle_login-authorization_example :
    let (b, s, path) = handle_login ok_token no_detail to_text grants out typed in
    (path ≡ some "/")
    × (route (λ s. s) b "/" ≡ some (with_sidebar Page.dashboard))
    × ((c : Call)
        → lookup "Authorization" (request_of no_detail ok_token to_text b c).headers
          ≡ some ("Bearer " ++ "t2"))
handle_login-authorization_example =
    handle_login-authorization no_detail ok_token to_text (λ s. s) grants out typed 200 "OK" "t2"
      (some "t2") refl refl refl refl refl

abbrev counting : JsNumber
counting = record {
  Number = ℕ;
  zero = 0;
  add = λ a b. a + b;
  parse_float = λ s. 5;
  to_fixed_2 = λ n. "";
}

abbrev costs : CostGraph
costs = record {
  costs =
      record {
        name = "a";
        predicted_monthly_cost_usd = some "5";
        tokens_used = some 3;
        cost_action = none;
      }
      ∷ [];
  loading = false;
}

abbrev to_locale : ℕ → String
to_locale _ = "3"
