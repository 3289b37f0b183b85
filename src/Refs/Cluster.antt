-- ===== src/Refs/Cluster.antt =====
-- What the controllers read of the API server, and internal/controller/util.go's default for a
-- reference's namespace.
use ronak_agentk_runtime.Base.{
  ℕ, String, Bool, ◌&&◌, List, [], ◌∷◌, ◌==◌, is_empty, if◌then◌else◌, Result, ok, err, Fetched,
  found, not_found, no_match, failed,
}
use Prim.Native.String.{◌++◌}
use ronak_agentk_runtime.Kube.{ObjectReference, NamespacedName}
use ronak_agentk_runtime.Api.Agent.{Agent}
use ronak_agentk_runtime.Api.Resources.{ToolServer, ToolSandbox, Policy}

-- api/v1alpha1/aigateway_types.go
pub record AiGateway : Type 0 where
  pub name : String
  pub namespace : String
  pub port : ℕ

-- client.Get and client.List, for each kind that the agent controller reads
pub record Cluster : Type 0 where
  pub get_agent : NamespacedName → Fetched Agent
  pub get_tool_server : NamespacedName → Fetched ToolServer
  pub get_ai_gateway : NamespacedName → Fetched AiGateway
  pub list_ai_gateways : String → Fetched (List AiGateway)
  pub get_tool_sandbox : NamespacedName → Fetched ToolSandbox
  pub get_policy : NamespacedName → Fetched Policy

unfoldable pub get_namespace_with_default : ObjectReference → String → String
get_namespace_with_default ref default_namespace =
    if is_empty ref.namespace then default_namespace else ref.namespace

-- The key that a reference from a namespace names.
abbrev pub target : ObjectReference → String → NamespacedName
target ref from = record { name = ref.name; namespace = get_namespace_with_default ref from }

abbrev pub same_key : NamespacedName → NamespacedName → Bool
same_key a b = (a.name == b.name) && (a.namespace == b.namespace)

abbrev pub agent_key : Agent → NamespacedName
agent_key a = record { name = a.name; namespace = a.namespace }

abbrev pub server_key : ToolServer → NamespacedName
server_key t = record { name = t.name; namespace = t.namespace }

-- The requests for the listed objects that pass a test.
abbrev pub enqueue_by {ℓ} :
    {A : Type ℓ} → (A → NamespacedName) → (A → Bool) → List A → List NamespacedName
enqueue_by key p [] = []
enqueue_by key p (a ∷ rest) = if p a then key a ∷ enqueue_by key p rest else enqueue_by key p rest

-- "%s/%s"
abbrev pub show_key : NamespacedName → String
show_key k = k.namespace ++ "/" ++ k.name

-- fmt's %q, for a text with nothing to escape
abbrev pub quote : String → String
quote s = "\"" ++ s ++ "\""

-- `if err != nil { return fmt.Errorf("…: %w", err) }`
abbrev pub or_error {ℓ} : {A : Type ℓ} → String → Fetched A → Result A
or_error prefix (found a) = ok a
or_error prefix not_found = err (prefix ++ "not found")
or_error prefix no_match = err (prefix ++ "no matches for kind")
or_error prefix (failed m) = err (prefix ++ m)
