-- ===== src/Web/Login/View.antt =====
-- What web-dashboard/frontend/src/pages/Login.tsx returns.
use ronak_agentk_runtime.Base.{String, true, List, [], ◌∷◌, ◌++◌, some, if◌then◌else◌}
use ronak_agentk_runtime.Web.Html.{
  InputValue, text, number, checked, attr, flag, shows, on_change, on_submit, Node, words, svg, el,
  plain, says, when_text,
}
use ronak_agentk_runtime.Web.Login.{LoginForm}

pub data LoginEvent : Type 0 where
  -- `setEmail(e.target.value)`
  typed_email : String → LoginEvent
  typed_password : String → LoginEvent
  -- handleLogin
  signed_in : LoginEvent

-- `e.target.value` of a text input
abbrev pub target_value : InputValue → String
target_value (text s) = s
target_value (number n) = ""
target_value (checked b) = ""

unfoldable pub change_form : LoginEvent → LoginForm → LoginForm
change_form (typed_email v) s = record s { email = v }
change_form (typed_password v) s = record s { password = v }
change_form signed_in s = s

unfoldable pub features : List (String × String) → List (Node LoginEvent)
features [] = []
features ((label, desc) ∷ rest) =
    plain "div" (plain "div" (svg ∷ []) ∷ plain "div" (says "p" label ∷ says "p" desc ∷ []) ∷ [])
    ∷ features rest

unfoldable pub branding : Node LoginEvent
unfolding features
branding = plain "div" (
    plain "div" (plain "div" [] ∷ plain "div" [] ∷ svg ∷ [])
    ∷ plain "div" (plain "div" (plain "div" (svg ∷ []) ∷ says "span" "AgentK" ∷ []) ∷ [])
    ∷ plain "div" (
        plain "h2" (
          words "The Kubernetes-Native"
          ∷ plain "br" []
          ∷ says "span" "Operating System"
          ∷ plain "br" []
          ∷ words "for AI Agents"
          ∷ [])
        ∷ plain "div" (
            features (
              ("ZK-SNARK/PlonK Proofs", "Cryptographic verification of agent execution")
              ∷ ("TEE Attestation", "Hardware-sealed confidential computing")
              ∷ ("Cost Intelligence", "Real-time monitoring with auto-optimization")
              ∷ []))
        ∷ [])
    ∷ plain "div"
        (says "p" "17 CRDs • 30+ Prometheus Metrics • 4 Swarm Strategies • Edge-Ready (64Mi)" ∷ [])
    ∷ [])

unfoldable pub email_field : LoginForm → Node LoginEvent
email_field s = plain "div" (
    says "label" "Email address"
    ∷ el "input"
        (attr "type" "email"
          ∷ shows (some (text s.email))
          ∷ on_change (λ v. typed_email (target_value v))
          ∷ flag "required" true
          ∷ attr "placeholder" "you@company.com"
          ∷ [])
        []
    ∷ [])

unfoldable pub password_field : LoginForm → Node LoginEvent
password_field s = plain "div" (
    says "label" "Password"
    ∷ el "input"
        (attr "type" "password"
          ∷ shows (some (text s.password))
          ∷ on_change (λ v. typed_password (target_value v))
          ∷ flag "required" true
          ∷ attr "placeholder" "Enter your password"
          ∷ [])
        []
    ∷ [])

unfoldable pub sign_in_button : LoginForm → Node LoginEvent
sign_in_button s =
    el "button" (attr "type" "submit" ∷ flag "disabled" s.loading ∷ []) (
      (if s.loading then plain "span" (svg ∷ words "Signing in..." ∷ []) else words "Sign In") ∷ [])

unfoldable pub login_form : LoginForm → Node LoginEvent
unfolding email_field password_field sign_in_button
login_form s = el "form" (on_submit signed_in ∷ []) (
    email_field s
    ∷ password_field s
    ∷ (when_text s.error (plain "div" (svg ∷ words s.error ∷ [])) ++ (sign_in_button s ∷ [])))

unfoldable pub render : LoginForm → Node LoginEvent
unfolding branding login_form
render s = plain "div" (
    branding
    ∷ plain "div" (
        plain "div" (
          plain "div" (plain "div" (plain "div" (svg ∷ []) ∷ says "span" "AgentK" ∷ []) ∷ [])
          ∷ plain "div"
              (says "h2" "Welcome back" ∷ says "p" "Sign in to your AgentK dashboard" ∷ [])
          ∷ login_form s
          ∷ plain "div" (
              plain "p" (
                words "Free tier users: manage agents via "
                ∷ says "code" "kubectl"
                ∷ words " directly."
                ∷ plain "br" []
                ∷ words
                    "Managed tier ($49/mo) includes this dashboard + Groth16 proofs + cost intelligence."
                ∷ [])
              ∷ [])
          ∷ [])
        ∷ [])
    ∷ [])
