-- ===== src/Reconcile/Config.antt =====
-- The runtime configuration, the framework and the image of internal/controller/agent_reconciler.go
use ronak_agentk_runtime.Base.{
  String, Option, none, some, List, [], ◌∷◌, ◌==◌, is_empty, non_empty, if◌then◌else◌, Result, ok,
  err, Fetched, found, not_found, no_match, failed,
}
use Prim.Native.String.{◌++◌}
use ronak_agentk_runtime.Api.Agent.{Agent}

-- agentruntimeconfiguration_types.go
pub record AgentTemplateImages : Type 0 where
  pub google_adk : String
  pub msaf : String

pub record AgentRuntimeConfiguration : Type 0 where
  pub default_framework : String
  pub agent_template_images : Option AgentTemplateImages

abbrev one_config :
    String → Fetched (List AgentRuntimeConfiguration) → Result (Option AgentRuntimeConfiguration)
one_config ns (found []) = ok none
one_config ns (found (c ∷ [])) = ok (some c)
one_config ns (found (c ∷ d ∷ _)) = err (
    "multiple AgentRuntimeConfiguration resources found in namespace " ++ ns
    ++ " - only one is allowed")
one_config ns not_found = ok none
one_config ns no_match = ok none
one_config ns (failed m) = err ("failed to list AgentRuntimeConfiguration: " ++ m)

-- The first argument is the environment's POD_NAMESPACE, the second lists the configurations of a
-- namespace.
unfoldable pub get_agent_runtime_configuration :
    String
    → (String → Fetched (List AgentRuntimeConfiguration))
    → Result (Option AgentRuntimeConfiguration)
get_agent_runtime_configuration operator_namespace list =
    if is_empty operator_namespace
    then err "POD_NAMESPACE environment variable is not set - cannot determine operator namespace"
    else one_config operator_namespace (list operator_namespace)

abbrev pub google_adk_framework : String
google_adk_framework = "google-adk"

abbrev pub msaf_framework : String
msaf_framework = "msaf"

abbrev pub default_framework_of : Option AgentRuntimeConfiguration → String
default_framework_of none = google_adk_framework
default_framework_of (some c) =
    if non_empty c.default_framework then c.default_framework else google_adk_framework

unfoldable pub resolve_effective_framework : Agent → Option AgentRuntimeConfiguration → String
resolve_effective_framework a config =
    if non_empty a.spec.framework then a.spec.framework else default_framework_of config

-- The configured image of a framework; the empty text is none.
abbrev configured_image : String → Option AgentTemplateImages → String
configured_image framework none = ""
configured_image framework (some images) =
    if framework == google_adk_framework
    then images.google_adk
    else if framework == msaf_framework
    then images.msaf
    else ""

abbrev images_of : Option AgentRuntimeConfiguration → Option AgentTemplateImages
images_of none = none
images_of (some c) = c.agent_template_images

abbrev built_in_image : String → String
built_in_image framework =
    if framework == google_adk_framework
    then "ghcr.io/agentic-layer/agent-template-adk:0.8.0"
    else if framework == msaf_framework
    then "ghcr.io/agentic-layer/agent-template-msaf:0.1.0"
    else "invalid"

unfoldable pub get_template_image : String → Option AgentRuntimeConfiguration → String
get_template_image framework config =
    let image = configured_image framework (images_of config) in
    if non_empty image then image else built_in_image framework
