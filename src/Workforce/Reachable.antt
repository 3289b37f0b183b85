-- ===== src/Workforce/Reachable.antt =====
-- The agents that a workforce reaches, independently of the traversal.
use ronak_agentk_runtime.Base.{String, true, none, some, List, ◌≡◌, ◌≢◌, found, non_empty}
use mathlib.Core.List.{Memᴰ}
use ronak_agentk_runtime.Kube.{ObjectReference, NamespacedName}
use ronak_agentk_runtime.Api.Agent.{Agent, SubAgent}
use ronak_agentk_runtime.Api.Resources.{AgenticWorkforce}
use ronak_agentk_runtime.Refs.Cluster.{Cluster, target, show_key}

-- The agent `k` exists and has `j` as a cluster sub-agent.
pub data IsSucc (c : Cluster) (k j : NamespacedName) : Type 0 where
  succ :
      (a : Agent) (s : SubAgent) (ref : ObjectReference)
      → c.get_agent k ≡ found a
      → Memᴰ s a.spec.sub_agents
      → s.agent_ref ≡ some ref
      → j ≡ target ref a.namespace
      → IsSucc c k j

-- The agent `k` exists and has a remote sub-agent at `url`.
pub data IsRemote (c : Cluster) (k : NamespacedName) (url : String) : Type 0 where
  remote :
      (a : Agent) (s : SubAgent)
      → c.get_agent k ≡ found a
      → Memᴰ s a.spec.sub_agents
      → s.agent_ref ≡ none
      → non_empty s.url ≡ true
      → url ≡ s.url
      → IsRemote c k url

pub data Reaches (c : Cluster) (wf : AgenticWorkforce) : NamespacedName → Type 0 where
  entry :
      {k : NamespacedName} (ref : ObjectReference)
      → Memᴰ (some ref) wf.entry_point_agents
      → k ≡ target ref wf.namespace
      → Reaches c wf k
  step : {k j : NamespacedName} → Reaches c wf k → IsSucc c k j → Reaches c wf j

-- A list of keys that holds every agent in question: closed under the references, and with keys
-- whose texts tell them from one another and from the URLs of the remote agents.
pub record IsUniverse (c : Cluster) (u : List NamespacedName) : Type 0 where
  pub closed : (k j : NamespacedName) → Memᴰ k u → IsSucc c k j → Memᴰ j u
  pub distinct : (k j : NamespacedName) → Memᴰ k u → Memᴰ j u → show_key k ≡ show_key j → k ≡ j
  pub apart :
      (k j : NamespacedName) (url : String)
      → Memᴰ k u
      → Memᴰ j u
      → IsRemote c k url
      → url ≢ show_key j
