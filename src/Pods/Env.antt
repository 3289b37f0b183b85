-- ===== src/Pods/Env.antt =====
-- mergeEnvironmentVariables of internal/controller/agent_config.go. Go does not fix the order in
-- which a map is read; here it is the order of first insertion, and the result is sorted by a
-- parameter.
use ronak_agentk_runtime.Base.{
  String, none, some, List, [], ◌∷◌, ◌==◌, Dict, insert, lookup, if◌then◌else◌,
}
use ronak_agentk_runtime.Kube.{EnvVar}

unfoldable pub user_env_map : Dict EnvVar → List EnvVar → Dict EnvVar
user_env_map m [] = m
user_env_map m (e ∷ es) = user_env_map (insert e.name e m) es

-- `delete(m, k)`
unfoldable pub delete : String → Dict EnvVar → Dict EnvVar
delete k [] = []
delete k ((j, e) ∷ m) = if j == k then delete k m else (j, e) ∷ delete k m

abbrev pub values : Dict EnvVar → List EnvVar
values [] = []
values ((_, e) ∷ m) = e ∷ values m

-- The template variables in order, each one replaced by the user's if there is one, and then what
-- is left of the user's.
unfoldable pub override : List EnvVar → Dict EnvVar → List EnvVar
override [] m = values m
override (t ∷ ts) m = elim (lookup t.name m) [
  | some u ↦ u ∷ override ts (delete t.name m)
  | none ↦ t ∷ override ts m
]

-- `sort_slice` is sort.Slice by `a.Name < b.Name`, which leaves variables of one name in any order.
unfoldable pub merge_environment_variables :
    (List EnvVar → List EnvVar) → List EnvVar → List EnvVar → List EnvVar
unfolding user_env_map override
merge_environment_variables sort_slice template_env_vars user_env_vars =
    sort_slice (override template_env_vars (user_env_map [] user_env_vars))
