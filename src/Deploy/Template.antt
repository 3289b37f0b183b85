-- ===== src/Deploy/Template.antt =====
-- buildTemplateEnvironmentVars and sanitizeAgentName of internal/controller/agent_config.go;
-- json.Marshal of the two maps is a parameter.
use Prim.Native.Char.{Char, code}
use Prim.Native.String
use ronak_agentk_runtime.Base.{
  ℕ, String, Bool, ◌&&◌, ◌||◌, Option, none, some, List, [], ◌∷◌, ◌++◌, Dict, insert, leb, eqb,
  is_empty, if◌then◌else◌, Result, ok, err,
}
use ronak_agentk_runtime.Kube.{EnvVar}
use ronak_agentk_runtime.Refs.Cluster.{quote}
use ronak_agentk_runtime.Refs.SubAgents.{ResolvedSubAgent}
use ronak_agentk_runtime.Refs.Tools.{ResolvedTool}
use ronak_agentk_runtime.Api.Agent.{Agent}
use ronak_agentk_runtime.Pods.Protocols.{build_a2a_agent_rpc_url}

abbrev pub is_digit : ℕ → Bool
is_digit c = leb 48 c && leb c 57

abbrev pub is_word : ℕ → Bool
is_word c = (leb 97 c && leb c 122) || (leb 65 c && leb c 90) || is_digit c || eqb c 95

abbrev pub underscore : Char
underscore = "_"

unfoldable pub sanitize_chars : String → String
sanitize_chars String.[] = ""
sanitize_chars (String.◌∷◌ c s) =
    String.◌∷◌ (if is_word (code c) then c else underscore) (sanitize_chars s)

abbrev pub begin_well : String → String
begin_well String.[] = "agent"
begin_well (String.◌∷◌ c s) =
    if is_digit (code c) then String.◌∷◌ underscore (String.◌∷◌ c s) else String.◌∷◌ c s

unfoldable pub sanitize_agent_name : String → String
unfolding sanitize_chars
sanitize_agent_name name = begin_well (sanitize_chars name)

abbrev env : String → String → EnvVar
env name value = record { name = name; value = value; value_from = none }

abbrev url_env : String → List EnvVar
url_env url = if is_empty url then [] else env "AGENT_A2A_RPC_URL" url ∷ []

abbrev gateway_env : Option String → List EnvVar
gateway_env none = []
gateway_env (some url) =
    env "LITELLM_PROXY_API_BASE" url
    ∷ env "LITELLM_PROXY_API_KEY" "NOT_USED_BY_GATEWAY"
    ∷ env "USE_LITELLM_PROXY" "True"
    ∷ []

-- The map of sub-agents under their sanitised names; the error names one without an interaction type.
unfoldable pub sub_agents_map :
    Dict ResolvedSubAgent → Dict ResolvedSubAgent → Result (Dict ResolvedSubAgent)
sub_agents_map m [] = ok m
sub_agents_map m ((name, r) ∷ rest) =
    let next = sub_agents_map (insert (sanitize_agent_name name) r m) rest in
    if is_empty r.interaction_type
    then err (
        String.◌++◌ "subAgent "
          (String.◌++◌ (quote name) " has no interactionType set (CRD defaulting failed)"))
    else next

-- `if err != nil { return nil, fmt.Errorf("…: %w", err) }`
abbrev then_ok {ℓ} : {A B : Type ℓ} → String → Result A → (A → Result B) → Result B
then_ok prefix (ok a) f = f a
then_ok prefix (err m) f = err (String.◌++◌ prefix m)

module _ (marshal_sub_agents : Dict ResolvedSubAgent → Result String)
    (marshal_tools : Dict ResolvedTool → Result String) where
  unfoldable pub build_template_environment_vars :
      Agent → Dict ResolvedSubAgent → Dict ResolvedTool → Option String → Result (List EnvVar)
  unfolding sub_agents_map sanitize_agent_name
  build_template_environment_vars a subs tools gateway_url =
      then_ok "" (sub_agents_map [] subs) (λ m.
        then_ok "failed to marshal subAgents: " (marshal_sub_agents m) (λ sub_json.
          then_ok "failed to marshal tools: " (marshal_tools tools) (λ tool_json. ok (
            env "AGENT_NAME" (sanitize_agent_name a.name)
            ∷ env "AGENT_DESCRIPTION" a.spec.description
            ∷ env "AGENT_INSTRUCTION" a.spec.instruction
            ∷ env "AGENT_MODEL" a.spec.model
            ∷ (url_env (build_a2a_agent_rpc_url a)
                ++ (gateway_env gateway_url
                    ++ (env "SUB_AGENTS" sub_json ∷ env "AGENT_TOOLS" tool_json ∷ [])))))))
