-- ===== src/Pods/Tests.antt =====
-- Runs of the pod template's parts.
use mathlib.Core.List.{Perm}
use mathlib.Core.List.Perm
use ronak_agentk_runtime.Base.{String, none, List, [], ◌∷◌}
use ronak_agentk_runtime.Kube.{EnvVar}
use ronak_agentk_runtime.Api.Agent.{EmbeddedMetadata}
use ronak_agentk_runtime.Pods.Env.{merge_environment_variables}
use ronak_agentk_runtime.Pods.Merged.{named, named-merge_environment_variables}

abbrev env : String → String → EnvVar
env name value = record { name = name; value = value; value_from = none }

-- A sort that swaps the first two.
abbrev swap : List EnvVar → List EnvVar
swap [] = []
swap (a ∷ []) = a ∷ []
swap (a ∷ b ∷ rest) = b ∷ a ∷ rest

swap-Perm : (xs : List EnvVar) → Perm (swap xs) xs
swap-Perm [] = Perm.refl []
swap-Perm (a ∷ []) = Perm.refl (a ∷ [])
swap-Perm (a ∷ b ∷ rest) = Perm.swap a b rest

abbrev template_env : List EnvVar
template_env = env "AGENT_NAME" "a" ∷ env "AGENT_MODEL" "" ∷ []

abbrev user_env : List EnvVar
user_env = env "AGENT_MODEL" "m1" ∷ env "AGENT_MODEL" "m2" ∷ []

named-merge_environment_variables_example :
    Perm
      (named "AGENT_MODEL" (merge_environment_variables swap template_env user_env))
      (env "AGENT_MODEL" "m2" ∷ [])
named-merge_environment_variables_example =
    named-merge_environment_variables swap swap-Perm "AGENT_MODEL" template_env user_env

abbrev common : EmbeddedMetadata
common = record { labels = ("team", "x") ∷ ("app", "spoofed") ∷ []; annotations = [] }
