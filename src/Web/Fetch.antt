-- ===== src/Web/Fetch.antt =====
-- web-dashboard/frontend/src/api.ts
use ronak_agentk_runtime.Base.{
  String, Option, none, some, [], ◌∷◌, Dict, insert, copy, eqb, non_empty, if◌then◌else◌,
}
use Prim.Native.String.{◌++◌}
use ronak_agentk_runtime.Web.Browser.{
  Browser, Json, value, malformed, Reply, unreachable, answered, is_ok, Request, Outcome, returned,
  thrown, or_default,
}

abbrev pub api_base : String
api_base = "/api"

-- getToken
abbrev pub get_token : Browser → Option String
get_token b = b.token

-- the second argument of fetchAPI
pub record RequestInit : Type 0 where
  pub method : String
  pub headers : Dict String
  pub body : Option String

abbrev pub authorize : Option String → Dict String → Dict String
authorize none headers = headers
authorize (some token) headers =
    if non_empty token then insert "Authorization" ("Bearer " ++ token) headers else headers

unfoldable pub build_request : Browser → String → RequestInit → Request
build_request b path options =
    let headers = copy (("Content-Type", "application/json") ∷ []) options.headers in
    record {
      method = options.method;
      url = api_base ++ path;
      headers = authorize (get_token b) headers;
      body = options.body;
    }

-- the state that a 401 leaves: no token, at the login page
abbrev pub logged_out : Browser → Browser
logged_out b = record { token = none; location = "/login" }

module _ {J : Type 0} (detail : J → Option String) where
  -- `res.json()`
  abbrev pub read_json : Json J → Outcome J
  read_json (value j) = returned j
  read_json (malformed message) = thrown message

  -- the message of a reply that is not ok
  abbrev pub error_message : String → Json J → String
  error_message status_text (value j) = or_default (detail j) "Request failed"
  error_message status_text (malformed _) = or_default (some status_text) "Request failed"

  unfoldable pub settle : Browser → Reply J → Browser × Outcome J
  settle b (unreachable message) = (b, thrown message)
  settle b (answered status status_text body) =
      if eqb status 401
      then (logged_out b, thrown "Unauthorized")
      else if is_ok status
      then (b, read_json body)
      else (b, thrown (error_message status_text body))

  -- fetchAPI; `send` is the server
  unfoldable pub fetch_api :
      (Request → Reply J) → Browser → String → RequestInit → Browser × Outcome J
  unfolding settle build_request
  fetch_api send b path options = settle b (send (build_request b path options))

  -- uploadKubeconfig: a form body, no content type, and no special case for 401
  unfoldable pub upload_kubeconfig : (Request → Reply J) → Browser → String → Browser × Outcome J
  upload_kubeconfig send b form =
      let reply = send (record {
        method = "POST";
        url = api_base ++ "/auth/kubeconfig";
        headers = authorize (get_token b) [];
        body = some form;
      }) in
      elim reply [
        | unreachable message ↦ (b, thrown message)
        | answered status status_text body ↦
            if is_ok status then (b, read_json body) else (b, thrown "Failed to upload kubeconfig")
      ]

abbrev get : RequestInit
get = record { method = "GET"; headers = []; body = none }

abbrev post : String → RequestInit
post text = record { method = "POST"; headers = []; body = some text }

abbrev delete : RequestInit
delete = record { method = "DELETE"; headers = []; body = none }

-- The members of `api`: the path and the options that each hands to fetchAPI. A body is the
-- text of JSON.stringify.
pub data Call : Type 0 where
  login : String → Call
  list_agents : String → Call
  get_agent : String → String → Call
  create_agent : String → Call
  delete_agent : String → String → Call
  get_cost : String → String → Call
  get_all_costs : String → Call
  get_attestation : String → String → Call
  list_attestations : String → Call
  preview_simulation : String → Call

unfoldable pub call_path : Call → String
call_path (login _) = "/auth/login"
call_path (list_agents ns) = "/agents?namespace=" ++ ns
call_path (get_agent name ns) = "/agents/" ++ name ++ "?namespace=" ++ ns
call_path (create_agent _) = "/agents"
call_path (delete_agent name ns) = "/agents/" ++ name ++ "?namespace=" ++ ns
call_path (get_cost name ns) = "/cost/" ++ name ++ "?namespace=" ++ ns
call_path (get_all_costs ns) = "/cost?namespace=" ++ ns
call_path (get_attestation name ns) = "/attestation/" ++ name ++ "?namespace=" ++ ns
call_path (list_attestations ns) = "/attestation?namespace=" ++ ns
call_path (preview_simulation _) = "/simulation/preview"

unfoldable pub call_options : Call → RequestInit
call_options (login text) = post text
call_options (create_agent text) = post text
call_options (preview_simulation text) = post text
call_options (delete_agent _ _) = delete
call_options _ = get

unfoldable pub call_api :
    {J : Type 0} → (J → Option String) → (Request → Reply J) → Browser → Call → Browser × Outcome J
unfolding call_path call_options fetch_api
call_api detail send b c = fetch_api detail send b (call_path c) (call_options c)
