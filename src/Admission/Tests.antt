-- ===== src/Admission/Tests.antt =====
-- Runs of the webhooks.
use ronak_agentk_runtime.Base.{
  String, true, Option, none, some, [], ◌∷◌, ◌≡◌, ◌≢◌, ◌↔◌, refl, arith, eq_iff, ◌==◌,
}
use ronak_agentk_runtime.Api.Agent.{Agent}
use ronak_agentk_runtime.Api.Resources.{ToolServerSpec}
use ronak_agentk_runtime.Refs.Cluster.{Cluster, get_namespace_with_default}
use ronak_agentk_runtime.Refs.SubAgents.{resolve_all_sub_agents}
use ronak_agentk_runtime.Samples.{
  plain_server_spec, plain_agent, cluster_sub, remote_sub, server_tool, empty_cluster, only,
}
use ronak_agentk_runtime.Admission.Agents.{
  Url, validate_framework, validate_sub_agent, validate_tool, validate_source, validate_http_scheme,
  sanitize_for_port_name,
}
use ronak_agentk_runtime.Admission.Mounts.{check_mounts, validate_volume_mounts, validate_agent}
use ronak_agentk_runtime.Admission.Accepted.{
  IsAdmissible, validate_agent-admits_iff, validate_agent-resolves,
}
use ronak_agentk_runtime.Admission.Defaults.{IsPortName, sanitize_for_port_name-IsPortName}

-- A parser that reads one URL.
abbrev parse : String → Option Url
parse s = elim (s == "https://far.example") [
  | true ↦ some (record { scheme = "https"; host = "far.example" })
  | _ ↦ none
]

abbrev same : String → String
same s = s

abbrev parent : Agent
parent = plain_agent "parent" "" (cluster_sub "child" ∷ remote_sub ∷ []) (server_tool "search" ∷ [])

abbrev child : Agent
child = plain_agent "child" "http://child" [] []

abbrev with_child : Cluster
with_child = record empty_cluster { get_agent = only "child" child }

validate_agent-admits_iff_example :
    (validate_agent same parse parent ≡ []) ↔ IsAdmissible same parse parent
validate_agent-admits_iff_example = validate_agent-admits_iff same parse parent

parent_valid : validate_agent same parse parent ≡ []
unfolding validate_agent validate_framework validate_sub_agent validate_tool validate_volume_mounts
    validate_source validate_http_scheme check_mounts
parent_valid = refl

child_url : child.status.url ≢ ""
child_url h = ground (arith, eq_iff "http://child" "")

validate_agent-resolves_example : (resolve_all_sub_agents with_child parent).1 ≡ none
unfolding get_namespace_with_default
validate_agent-resolves_example =
    validate_agent-resolves same parse with_child parent parent_valid
      ((child, refl, child_url), (tt, tt))

abbrev server : ToolServerSpec
server = record (plain_server_spec "sse" 0 "") { protocol = "" }

-- "-a_"
sanitize_for_port_name-IsPortName_example : IsPortName (sanitize_for_port_name (45 ∷ 97 ∷ 95 ∷ []))
sanitize_for_port_name-IsPortName_example = sanitize_for_port_name-IsPortName (45 ∷ 97 ∷ 95 ∷ [])
