-- ===== src/Refs/SubAgents.antt =====
-- internal/controller/agent_subagent.go
use ronak_agentk_runtime.Base.{
  String, Bool, false, ◌&&◌, Option, none, some, List, [], ◌∷◌, ◌++◌, Dict, insert, ◌==◌, is_empty,
  non_empty, if◌then◌else◌, any, length, itoa, Result, ok, err, Fetched, join,
}
use Prim.Native.String
use ronak_agentk_runtime.Kube.{ObjectReference, NamespacedName}
use ronak_agentk_runtime.Api.Agent.{Agent, SubAgent}
use ronak_agentk_runtime.Refs.Cluster.{
  Cluster, get_namespace_with_default, target, agent_key, enqueue_by, show_key, or_error, quote,
}

pub record ResolvedSubAgent : Type 0 where
  pub url : String
  pub interaction_type : String

-- The URL of a fetched agent, from its status.
abbrev pub status_url : NamespacedName → Result Agent → Result String
status_url key (err m) = err m
status_url key (ok a) =
    if is_empty a.status.url
    then err (
        String.◌++◌ "cluster Agent " (
          String.◌++◌ (show_key key)
            " has no URL in its Status field (may not be ready or have A2A protocol)"))
    else ok a.status.url

abbrev pub resolve_ref :
    (NamespacedName → Fetched Agent) → Option ObjectReference → String → Result String
resolve_ref get none parent_namespace = err "subAgent has neither url nor agentRef specified"
resolve_ref get (some ref) parent_namespace =
    let key = target ref parent_namespace in
    status_url key (
      or_error (String.◌++◌ "failed to resolve cluster agent " (String.◌++◌ (show_key key) ": "))
        (get key))

unfoldable pub resolve_sub_agent_url : Cluster → SubAgent → String → Result String
unfolding get_namespace_with_default
resolve_sub_agent_url c s parent_namespace =
    if non_empty s.url then ok s.url else resolve_ref c.get_agent s.agent_ref parent_namespace

-- one round of the loop: a resolved entry, or an issue
abbrev pub record_sub_agent :
    SubAgent
    → Result String
    → Dict ResolvedSubAgent × List String
    → Dict ResolvedSubAgent × List String
record_sub_agent s (ok url) (resolved, issues) =
    (insert s.name (record { url = url; interaction_type = s.interaction_type }) resolved, issues)
record_sub_agent s (err m) (resolved, issues) = (
  resolved,
  issues ++ (String.◌++◌ "subAgent " (String.◌++◌ (quote s.name) (String.◌++◌ ": " m))) ∷ [],
)

unfoldable pub resolve_sub_agents :
    Cluster
    → String
    → List SubAgent
    → Dict ResolvedSubAgent × List String
    → Dict ResolvedSubAgent × List String
resolve_sub_agents c ns [] acc = acc
resolve_sub_agents c ns (s ∷ rest) acc =
    resolve_sub_agents c ns rest (record_sub_agent s (resolve_sub_agent_url c s ns) acc)

-- `if len(issues) > 0 { return resolved, fmt.Errorf(…) }`
abbrev pub or_issues {ℓ} : {A : Type ℓ} → String → A × List String → A × Option String
or_issues what (resolved, []) = (resolved, none)
or_issues what (resolved, i ∷ is) = (
  resolved,
  some (
      String.◌++◌ "failed to resolve "
        (String.◌++◌ (itoa (length (i ∷ is))) (String.◌++◌ what (join "; " (i ∷ is))))),
)

-- The resolved entries, with an error if any sub-agent could not be resolved.
unfoldable pub resolve_all_sub_agents : Cluster → Agent → Dict ResolvedSubAgent × Option String
unfolding resolve_sub_agents
resolve_all_sub_agents c a =
    or_issues " subAgent(s): " (resolve_sub_agents c a.namespace a.spec.sub_agents ([], []))

-- The test of the inner loop of findAgentsReferencingSubAgent, which stops at the first match.
abbrev pub refers_to : NamespacedName → String → Option ObjectReference → Bool
refers_to key from none = false
refers_to key from (some ref) =
    (ref.name == key.name) && (get_namespace_with_default ref from == key.namespace)

unfoldable pub references_sub_agent : NamespacedName → Agent → Bool
unfolding get_namespace_with_default
references_sub_agent key a =
    any (λ (s : SubAgent). refers_to key a.namespace s.agent_ref) a.spec.sub_agents

abbrev pub enqueue : (Agent → Bool) → List Agent → List NamespacedName
enqueue p agents = enqueue_by agent_key p agents

-- `none`: the agents could not be listed
unfoldable pub find_agents_referencing_sub_agent : Option (List Agent) → Agent → List NamespacedName
unfolding references_sub_agent
find_agents_referencing_sub_agent none updated = []
find_agents_referencing_sub_agent (some agents) updated =
    enqueue (references_sub_agent (agent_key updated)) agents
