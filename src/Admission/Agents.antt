-- ===== src/Admission/Agents.antt =====
-- internal/webhook/v1alpha1/agent_webhook.go. net/url's Parse is a parameter: a scheme and a host,
-- or an error.
use ronak_agentk_runtime.Base.{
  ℕ, String, Bool, false, not, ◌&&◌, ◌||◌, Option, none, some, List, [], ◌∷◌, ◌++◌, ◌==◌, is_empty,
  non_empty, is_some, eqb, leb, itoa, if◌then◌else◌,
}
use Prim.Native.String
use ronak_agentk_runtime.Kube.{ObjectReference}
use ronak_agentk_runtime.Refs.Cluster.{quote}
use ronak_agentk_runtime.Api.Agent.{Agent, SubAgent, AgentTool, AgentProtocol, a2a_protocol}
use ronak_agentk_runtime.Admission.Errors.{
  FieldError, invalid, required, forbidden, when, when_some, index,
}

pub record Url : Type 0 where
  pub scheme : String
  pub host : String

abbrev pub name_missing : Option ObjectReference → Bool
name_missing none = false
name_missing (some ref) = is_empty ref.name

abbrev pub url_error : Option Url → Option String
url_error none = some "invalid URL format"
url_error (some u) =
    if not (u.scheme == "https" || u.scheme == "http")
    then some (String.◌++◌ "must use HTTP or HTTPS scheme, got " (quote u.scheme))
    else if is_empty u.host
    then some "must have a valid host"
    else none

module _ (parse : String → Option Url) where
  -- validateHTTPScheme: an error's message, if any
  unfoldable pub validate_http_scheme : String → Option String
  validate_http_scheme s = if is_empty s then none else url_error (parse s)

  -- What validateSubAgent and validateTool have in common. The texts in which they differ are the
  -- name of the list, of the reference, and the title of the element.
  unfoldable pub validate_source :
      String → String → String → Option ObjectReference → String → ℕ → List FieldError
  unfolding index
  validate_source list ref_name title ref url i =
      when (is_some ref && non_empty url) (record {
        kind = forbidden;
        field = index list i;
        detail = String.◌++◌ ref_name " and url are mutually exclusive - specify exactly one";
      })
      ++ (when (not (is_some ref) && is_empty url) (record {
        kind = required;
        field = index list i;
        detail = String.◌++◌ "either " (String.◌++◌ ref_name " or url must be specified");
      })
          ++ (when (name_missing ref) (record {
            kind = required;
            field = String.◌++◌ (index list i) (String.◌++◌ "." (String.◌++◌ ref_name ".name"));
            detail = String.◌++◌ ref_name ".name must be specified";
          })
              ++ (if non_empty url
                  then when_some (validate_http_scheme url) (λ m. record {
                    kind = invalid;
                    field = String.◌++◌ (index list i) ".url";
                    detail =
                        String.◌++◌ title
                          (String.◌++◌ "[" (String.◌++◌ (itoa i) (String.◌++◌ "].Url: " m)));
                  })
                  else [])))

  unfoldable pub validate_sub_agent : SubAgent → ℕ → List FieldError
  unfolding validate_source
  validate_sub_agent s i = validate_source "subAgents" "agentRef" "SubAgent" s.agent_ref s.url i

  unfoldable pub validate_tool : AgentTool → ℕ → List FieldError
  unfolding validate_source
  validate_tool t i = validate_source "tools" "toolServerRef" "Tool" t.tool_server_ref t.url i

abbrev pub is_template_framework : String → Bool
is_template_framework f = f == "google-adk" || f == "msaf"

unfoldable pub validate_framework : Agent → List FieldError
validate_framework a =
    when
      (non_empty a.spec.framework
        && is_empty a.spec.image
        && not (is_template_framework a.spec.framework))
      (record {
        kind = invalid;
        field = "spec.framework";
        detail = String.◌++◌ "framework " (
            String.◌++◌ (quote a.spec.framework)
              " requires a custom image. Template agents are only supported for frameworks: google-adk, msaf");
      })

-- a letter or digit in lower case, or a hyphen
abbrev pub is_port_char : ℕ → Bool
is_port_char c = (leb 97 c && leb c 122) || (leb 48 c && leb c 57) || eqb c 45

-- sanitizeForPortName over the code points of the text in lower case
unfoldable pub hyphenate : List ℕ → List ℕ
hyphenate [] = []
hyphenate (c ∷ cs) = (if is_port_char c then c else 45) ∷ hyphenate cs

unfoldable pub trim_left : List ℕ → List ℕ
trim_left [] = []
trim_left (c ∷ cs) = let rest = trim_left cs in if eqb c 45 then rest else c ∷ cs

-- One character before a text that is trimmed already.
abbrev pub trim_step : ℕ → List ℕ → List ℕ
trim_step c [] = if eqb c 45 then [] else c ∷ []
trim_step c (d ∷ ds) = c ∷ d ∷ ds

unfoldable pub trim_right : List ℕ → List ℕ
trim_right [] = []
trim_right (c ∷ cs) = trim_step c (trim_right cs)

-- "port"
abbrev pub or_port : List ℕ → List ℕ
or_port [] = 112 ∷ 111 ∷ 114 ∷ 116 ∷ []
or_port (c ∷ cs) = c ∷ cs

unfoldable pub sanitize_for_port_name : List ℕ → List ℕ
unfolding hyphenate trim_left trim_right
sanitize_for_port_name lower = or_port (trim_right (trim_left (hyphenate lower)))

-- The defaults. strings.ToLower with sanitizeForPortName is a function from text to text here.
module _ (port_name : String → String) (default_replicas default_port : ℕ) where
  unfoldable pub default_port_of : AgentProtocol → ℕ
  default_port_of p = if eqb p.port 0 then default_port else p.port

  unfoldable pub default_protocol : AgentProtocol → AgentProtocol
  unfolding default_port_of itoa
  default_protocol p =
      let port = default_port_of p in
      record p {
        port = port;
        name =
            if is_empty p.name
            then String.◌++◌ (port_name p.kind) (String.◌++◌ "-" (itoa port))
            else p.name;
      }

  unfoldable pub default_protocols : List AgentProtocol → List AgentProtocol
  default_protocols [] = []
  default_protocols (p ∷ ps) = default_protocol p ∷ default_protocols ps

  abbrev pub some_protocol : List AgentProtocol → List AgentProtocol
  some_protocol [] = record { name = ""; kind = a2a_protocol; port = 0; path = "" } ∷ []
  some_protocol (p ∷ ps) = p ∷ ps

  abbrev pub or_default : Option ℕ → ℕ → Option ℕ
  or_default none d = some d
  or_default (some n) d = some n

  unfoldable pub apply_defaults : Agent → Agent
  unfolding default_protocols default_protocol
  apply_defaults a =
      let spec = a.spec in
      record a {
        spec = record spec {
          replicas = or_default spec.replicas default_replicas;
          protocols = default_protocols (some_protocol spec.protocols);
        };
      }
