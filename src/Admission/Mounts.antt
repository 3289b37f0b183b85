-- ===== src/Admission/Mounts.antt =====
-- validateVolumeMounts and validateAgent of agent_webhook.go; path.Clean is a parameter.
use ronak_agentk_runtime.Base.{
  ℕ, suc, String, Bool, true, false, not, ◌&&◌, List, [], ◌∷◌, ◌++◌, ◌==◌, any, eqb, is_empty, itoa,
  if◌then◌else◌, Option,
}
use Prim.Native.Char.{code}
use Prim.Native.String
use ronak_agentk_runtime.Kube.{Volume, VolumeMount}
use ronak_agentk_runtime.Refs.Cluster.{quote}
use ronak_agentk_runtime.Api.Agent.{Agent}
use ronak_agentk_runtime.Admission.Errors.{FieldError, invalid, when, index, each}
use ronak_agentk_runtime.Admission.Agents.{
  Url, validate_framework, validate_sub_agent, validate_tool,
}

-- strings.HasPrefix(s, p), `p` first
unfoldable pub has_prefix : String → String → Bool
has_prefix String.[] s = true
has_prefix (String.◌∷◌ c p) String.[] = false
has_prefix (String.◌∷◌ c p) (String.◌∷◌ d s) = eqb (code c) (code d) && has_prefix p s

-- The text of a path with a slash behind it begins with the other's.
abbrev pub is_nested : String → String → Bool
is_nested inner outer = has_prefix (String.◌++◌ outer "/") (String.◌++◌ inner "/")

abbrev nested_error : String → String → ℕ → ℕ → FieldError
nested_error inner outer inner_index outer_index = record {
  kind = invalid;
  field = String.◌++◌ (index "volumeMounts" inner_index) ".mountPath";
  detail = String.◌++◌ "mountPath " (
      String.◌++◌ (quote inner) (
        String.◌++◌ " is nested under " (
          String.◌++◌ (quote outer)
            (String.◌++◌ " (index " (String.◌++◌ (itoa outer_index) ")")))));
}

abbrev missing_volume : VolumeMount → ℕ → FieldError
missing_volume m i = record {
  kind = invalid;
  field = String.◌++◌ (index "volumeMounts" i) ".name";
  detail =
      String.◌++◌ "volumeMount references volume "
        (String.◌++◌ (quote m.name) " which does not exist in spec.volumes");
}

abbrev pub has_volume : List Volume → String → Bool
has_volume volumes name = any (λ (v : Volume). v.name == name) volumes

module _ (clean : String → String) where
  -- The comparison of two mounts, of which the first stands before the second.
  unfoldable pub compare_mounts : VolumeMount → ℕ → VolumeMount → ℕ → List FieldError
  unfolding index itoa has_prefix
  compare_mounts m i n j =
      let path1 = clean m.mount_path in
      let path2 = clean n.mount_path in
      if is_empty n.mount_path
      then []
      else if path1 == path2
      then []
      else if is_nested path2 path1
      then nested_error path2 path1 j i ∷ []
      else if is_nested path1 path2
      then nested_error path1 path2 i j ∷ []
      else []

  unfoldable pub check_mounts : List Volume → ℕ → List VolumeMount → List FieldError
  unfolding compare_mounts
  check_mounts volumes i [] = []
  check_mounts volumes i (m ∷ rest) =
      when (not (has_volume volumes m.name)) (missing_volume m i)
      ++ (each (compare_mounts m i) (suc i) rest ++ check_mounts volumes (suc i) rest)

  unfoldable pub validate_volume_mounts : Agent → List FieldError
  unfolding check_mounts
  validate_volume_mounts a = check_mounts a.spec.volumes 0 a.spec.volume_mounts

  -- The errors of validateAgent, in order; none admits the agent.
  unfoldable pub validate_agent : (String → Option Url) → Agent → List FieldError
  unfolding validate_framework validate_sub_agent validate_tool validate_volume_mounts
  validate_agent parse a =
      validate_framework a
      ++ (each (validate_sub_agent parse) 0 a.spec.sub_agents
          ++ (each (validate_tool parse) 0 a.spec.tools ++ validate_volume_mounts a))
