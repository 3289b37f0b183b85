-- ===== src/Admission/Servers.antt =====
-- internal/webhook/v1alpha1/toolserver_webhook.go; url.Parse, by the path that it reads, is a
-- parameter.
use ronak_agentk_runtime.Base.{
  ℕ, String, Bool, true, false, not, ◌&&◌, ◌||◌, Option, none, some, List, ◌++◌, ◌==◌, eqb, ltb,
  is_empty, non_empty, if◌then◌else◌,
}
use Prim.Native.Char.{code}
use Prim.Native.String
use ronak_agentk_runtime.Api.Resources.{ToolServerSpec}
use ronak_agentk_runtime.Admission.Errors.{FieldError, required, invalid, when}

abbrev is_remote : String → Bool
is_remote transport = transport == "http" || transport == "sse"

abbrev default_path : String → String
default_path transport =
    if transport == "http" then "/mcp" else if transport == "sse" then "/sse" else ""

abbrev default_replicas : Bool → Option ℕ → Option ℕ
default_replicas true none = some 1
default_replicas false none = none
default_replicas _ (some n) = some n

-- applyDefaults
unfoldable pub apply_server_defaults : ToolServerSpec → ToolServerSpec
apply_server_defaults s = record s {
  protocol = if is_empty s.protocol then "mcp" else s.protocol;
  port = if is_remote s.transport_type && eqb s.port 0 then 8080 else s.port;
  path = if is_empty s.path then default_path s.transport_type else s.path;
  replicas = default_replicas (is_remote s.transport_type) s.replicas;
}

-- a control character, a space, '?' or '#'
abbrev is_bad : ℕ → Bool
is_bad c = ltb c 32 || eqb c 127 || eqb c 32 || eqb c 63 || eqb c 35

unfoldable pub has_bad : String → Bool
has_bad String.[] = false
has_bad (String.◌∷◌ c s) = is_bad (code c) || has_bad s

abbrev starts_with_slash : String → Bool
starts_with_slash String.[] = false
starts_with_slash (String.◌∷◌ c s) = eqb (code c) 47

abbrev is_same : Option String → String → Bool
is_same none path = false
is_same (some read) path = read == path

module _ (parsed_path : String → Option String) where
  unfoldable pub is_valid_path_format : String → Bool
  unfolding has_bad
  is_valid_path_format path =
      starts_with_slash path
      && not (has_bad path)
      && is_same (parsed_path (String.◌++◌ "http://example.com" path)) path

  unfoldable pub validate_tool_server : ToolServerSpec → List FieldError
  unfolding is_valid_path_format
  validate_tool_server s =
      when (eqb s.port 0) (record {
        kind = required;
        field = "spec.port";
        detail = String.◌++◌ "port is required for " (String.◌++◌ s.transport_type " transport");
      })
      ++ when (non_empty s.path && not (s.path == "/") && not (is_valid_path_format s.path))
          (record {
            kind = invalid;
            field = "spec.path";
            detail = "path must start with '/' and contain only valid URL path characters";
          })
