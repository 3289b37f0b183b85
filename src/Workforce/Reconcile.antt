-- ===== src/Workforce/Reconcile.antt =====
-- The rest of agenticworkforce_reconciler.go: the check of the entry points, the status that a
-- reconciliation writes, and the watch on agents. meta.SetStatusCondition is a parameter.
use ronak_agentk_runtime.Base.{
  ℕ, String, Bool, true, false, ◌&&◌, ◌||◌, not, Option, none, some, List, [], ◌∷◌, ◌==◌, any,
  if◌then◌else◌, Fetched, found, join,
}
use Prim.Native.String
use ronak_agentk_runtime.Kube.{ObjectReference, NamespacedName}
use ronak_agentk_runtime.Api.Agent.{Agent, Condition}
use ronak_agentk_runtime.Api.Resources.{AgenticWorkforce, TransitiveAgent}
use ronak_agentk_runtime.Refs.Cluster.{Cluster, target, show_key, same_key, agent_key}
use ronak_agentk_runtime.Workforce.Traverse.{collect_transitive}

abbrev is_found {ℓ} : {A : Type ℓ} → Fetched A → Bool
is_found (found _) = true
is_found _ = false

-- The entry points that cannot be fetched, for whatever reason; nil references are skipped.
unfoldable pub missing_agents : Cluster → String → List (Option ObjectReference) → List String
missing_agents c ns [] = []
missing_agents c ns (none ∷ rest) = missing_agents c ns rest
missing_agents c ns (some ref ∷ rest) =
    let others = missing_agents c ns rest in
    let key = target ref ns in if is_found (c.get_agent key) then others else show_key key ∷ others

abbrev is_nil : List String → Bool
is_nil [] = true
is_nil (_ ∷ _) = false

-- validateEntryPointAgents
unfoldable pub validate_entry_point_agents : Cluster → AgenticWorkforce → Bool × List String
unfolding missing_agents
validate_entry_point_agents c wf =
    let missing = missing_agents c wf.namespace wf.entry_point_agents in (is_nil missing, missing)

abbrev ready_condition : AgenticWorkforce → Bool × List String → Condition
ready_condition wf (true, _) = record {
  kind = "Ready";
  status = true;
  reason = "AllAgentsReady";
  message = "All entry point agents are available";
  observed_generation = wf.generation;
}
ready_condition wf (false, missing) = record {
  kind = "Ready";
  status = false;
  reason = "AgentsMissing";
  message = String.◌++◌ "Missing agents: [" (String.◌++◌ (join " " missing) "]");
  observed_generation = wf.generation;
}

-- The object that Reconcile hands to Status().Update.
unfoldable pub reconciled :
    (List Condition → Condition → List Condition)
    → Cluster
    → ℕ
    → AgenticWorkforce
    → AgenticWorkforce
unfolding validate_entry_point_agents
reconciled set_status_condition c fuel wf =
    let (agents, tools) = collect_transitive c fuel wf in
    record wf {
      conditions =
          set_status_condition wf.conditions
            (ready_condition wf (validate_entry_point_agents c wf));
      transitive_agents = agents;
      transitive_tools = tools;
    }

abbrev pub workforce_key : AgenticWorkforce → NamespacedName
workforce_key wf = record { name = wf.name; namespace = wf.namespace }

-- An entry point is compared by its text "namespace/name".
abbrev pub is_entry : String → NamespacedName → Option ObjectReference → Bool
is_entry ns key none = false
is_entry ns key (some ref) = show_key (target ref ns) == show_key key

abbrev pub is_transitive : NamespacedName → TransitiveAgent → Bool
is_transitive key t = (t.name == key.name) && (t.namespace == key.namespace)

-- Whether a workforce refers to an agent, as an entry point or by its last status.
unfoldable pub refers : NamespacedName → AgenticWorkforce → Bool
refers key wf =
    any (is_entry wf.namespace key) wf.entry_point_agents
    || any (is_transitive key) wf.transitive_agents

-- The loop, with the keys that are enqueued already.
unfoldable pub find_loop :
    NamespacedName → List NamespacedName → List AgenticWorkforce → List NamespacedName
find_loop key enqueued [] = []
find_loop key enqueued (wf ∷ rest) =
    elim (any (same_key (workforce_key wf)) enqueued || not (refers key wf)) [
      | true ↦ find_loop key enqueued rest
      | false ↦ workforce_key wf ∷ find_loop key (workforce_key wf ∷ enqueued) rest
    ]

-- `none`: the workforces could not be listed
unfoldable pub find_workforces_referencing_agent :
    Option (List AgenticWorkforce) → Agent → List NamespacedName
unfolding find_loop refers
find_workforces_referencing_agent none a = []
find_workforces_referencing_agent (some workforces) a = find_loop (agent_key a) [] workforces
