-- ===== src/Swarms/Watch.antt =====
-- The swarm controller's watch on agents misses nothing.
use ronak_agentk_runtime.Base.{
  String, true, false, Option, none, some, List, [], ◌∷◌, ◌≡◌, ◌≢◌, refl, ap, inl, inr, Bool-cases,
  Fetched, any, Dict,
}
use ronak_agentk_runtime.Base.Int.{ℤ, pos}
use mathlib.Core.List.{Memᴰ}
use ronak_agentk_runtime.Kube.{ObjectReference, NamespacedName}
use ronak_agentk_runtime.Api.Agent.{Agent}
use ronak_agentk_runtime.Api.Resources.{SwarmAgent, Swarm}
use ronak_agentk_runtime.Refs.Cluster.{Cluster, get_namespace_with_default, target, agent_key}
use ronak_agentk_runtime.Refs.SubAgents.{refers_to}
use ronak_agentk_runtime.Refs.Wakeups.{AgreeExcept, or-eq-false}
use ronak_agentk_runtime.Swarms.Resolve.{
  resolve_agent_ref, resolve_swarm_agent_url, resolve_from, resolve_swarm_agents, swarm_key,
  references_agent, find_swarms_referencing_agent,
}

resolve_agent_ref-agree :
    (key : NamespacedName) (get get' : NamespacedName → Fetched Agent) (name : String)
    (ref : Option ObjectReference) (ns : String)
    → AgreeExcept key get get'
    → refers_to key ns ref ≡ false
    → resolve_agent_ref get name ref ns ≡ resolve_agent_ref get' name ref ns
resolve_agent_ref-agree key get get' name none ns agree h = refl
resolve_agent_ref-agree key get get' name (some ref) ns agree h = rw (agree (target ref ns) h)

resolve_from-agree :
    (key : NamespacedName) (c c' : Cluster) (ns : String) (agents : List SwarmAgent)
    (acc : Dict String × ℤ)
    → AgreeExcept key c.get_agent c'.get_agent
    → any (λ (sa : SwarmAgent). refers_to key ns sa.agent_ref) agents ≡ false
    → resolve_from c ns agents acc ≡ resolve_from c' ns agents acc
unfolding resolve_from resolve_swarm_agent_url get_namespace_with_default
resolve_from-agree key c c' ns [] acc agree h = refl
resolve_from-agree key c c' ns (sa ∷ rest) acc agree h =
    let (here, later) = or-eq-false _ _ h in
    rw (resolve_agent_ref-agree key c.get_agent c'.get_agent sa.name sa.agent_ref ns agree here)
      (resolve_from-agree key c c' ns rest _ agree later)

resolve_swarm_agents-agree :
    (key : NamespacedName) (c c' : Cluster) (sw : Swarm)
    → AgreeExcept key c.get_agent c'.get_agent
    → references_agent key sw ≡ false
    → resolve_swarm_agents c sw ≡ resolve_swarm_agents c' sw
unfolding resolve_swarm_agents references_agent
resolve_swarm_agents-agree key c c' sw agree h =
    rw (resolve_from-agree key c c' sw.namespace sw.spec.agents ([], pos 0) agree h)

find-mem :
    (updated : Agent) (sw : Swarm) {swarms : List Swarm}
    → Memᴰ sw swarms
    → references_agent (agent_key updated) sw ≡ true
    → Memᴰ (swarm_key sw) (find_swarms_referencing_agent (some swarms) updated)
unfolding find_swarms_referencing_agent
find-mem updated sw (Memᴰ.head {x} {xs} e) h =
    let px : references_agent (agent_key updated) x ≡ true = (rw e at h) in
    rw px (Memᴰ.head (ap swarm_key e))
find-mem updated sw (Memᴰ.tail {x} {xs} m) h =
    elim (Bool-cases (references_agent (agent_key updated) x)) [
      | inl t ↦ rw t (Memᴰ.tail (find-mem updated sw m h))
      | inr t ↦ rw t (find-mem updated sw m h)
    ]

-- If the change of one agent, and of nothing else that the API server returns for agents, changes
-- the agents that a listed swarm resolves, their URLs or the counts of them, then the watch on
-- agents enqueues that swarm.
pub find_swarms_referencing_agent-complete :
    (c c' : Cluster) (updated : Agent) (sw : Swarm) (swarms : List Swarm)
    → AgreeExcept (agent_key updated) c.get_agent c'.get_agent
    → Memᴰ sw swarms
    → resolve_swarm_agents c sw ≢ resolve_swarm_agents c' sw
    → Memᴰ (swarm_key sw) (find_swarms_referencing_agent (some swarms) updated)
find_swarms_referencing_agent-complete c c' updated sw swarms agree m changed =
    elim (Bool-cases (references_agent (agent_key updated) sw)) [
      | inl yes' ↦ find-mem updated sw m yes'
      | inr no' ↦
          absurd (changed (resolve_swarm_agents-agree (agent_key updated) c c' sw agree no'))
    ]
