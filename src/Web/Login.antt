-- ===== src/Web/Login.antt =====
-- web-dashboard/frontend/src/pages/Login.tsx
pub mod View
use ronak_agentk_runtime.Base.{
  String, Bool, true, false, Option, none, some, [], ◌∷◌, Dict, Result, ok, err,
}
use ronak_agentk_runtime.Web.Browser.{
  Browser, Reply, Request, Outcome, returned, thrown, or_default, stored,
}
use ronak_agentk_runtime.Web.Fetch.{login, call_api}

pub record LoginForm : Type 0 where
  pub email : String
  pub password : String
  pub error : String
  pub loading : Bool

unfoldable pub initial : LoginForm
initial = record { email = ""; password = ""; error = ""; loading = false }

-- handleLogin up to its `await`: the form that is shown while the request runs
unfoldable pub submitted : LoginForm → LoginForm
submitted s = record s { loading = true; error = "" }

-- `token` is `res.token`, or the error's message where `res` is null.
module _ {J : Type 0} (token : J → Result (Option String)) where
  abbrev accepted :
      LoginForm → Browser → Result (Option String) → Browser × LoginForm × Option String
  accepted s b (ok t) =
      (record b { token = some (stored t) }, record s { loading = false }, some "/")
  accepted s b (err message) =
      (b, record s { error = or_default (some message) "Login failed"; loading = false }, none)

  -- handleLogin after its `await`, with the path that it navigates to
  abbrev pub settled : LoginForm → Browser × Outcome J → Browser × LoginForm × Option String
  settled s (b, returned res) = accepted s b (token res)
  settled s (b, thrown message) =
      (b, record s { error = or_default (some message) "Login failed"; loading = false }, none)

  unfoldable pub handle_login :
      (J → Option String)
      → (Dict String → String)
      → (Request → Reply J)
      → Browser
      → LoginForm
      → Browser × LoginForm × Option String
  unfolding submitted call_api
  handle_login detail stringify send b s = settled (submitted s) (
      call_api detail send b
        (login (stringify (("email", s.email) ∷ ("password", s.password) ∷ []))))
