-- ===== src/Refs/Wakeups.antt =====
-- The watches miss nothing: an agent whose resolution changes with another resource is enqueued
-- when that resource changes.
use ronak_agentk_runtime.Base.{
  String, Bool, true, false, ◌||◌, Option, none, some, List, [], ◌∷◌, ◌≡◌, ◌≢◌, refl, ap, inl, inr,
  Bool-cases, Fetched, any, Dict,
}
use mathlib.Core.List.{Memᴰ}
use ronak_agentk_runtime.Kube.{ObjectReference, NamespacedName}
use ronak_agentk_runtime.Api.Agent.{Agent, SubAgent}
use ronak_agentk_runtime.Refs.Cluster.{
  enqueue_by, Cluster, get_namespace_with_default, target, same_key, agent_key,
}
use ronak_agentk_runtime.Refs.SubAgents.{
  ResolvedSubAgent, resolve_ref, resolve_sub_agent_url, resolve_sub_agents, resolve_all_sub_agents,
  refers_to, references_sub_agent, enqueue, find_agents_referencing_sub_agent,
}

-- Two answers of the API server that differ at one key at most.
abbrev pub AgreeExcept :
    {A : Type 0} → NamespacedName → (NamespacedName → A) → (NamespacedName → A) → Type 0
AgreeExcept key get get' = (k : NamespacedName) → same_key k key ≡ false → get k ≡ get' k

pub enqueue_by-mem {ℓ} :
    {A : Type ℓ} (key : A → NamespacedName) (p : A → Bool) (a : A) {xs : List A}
    → Memᴰ a xs
    → p a ≡ true
    → Memᴰ (key a) (enqueue_by key p xs)
enqueue_by-mem key p a (Memᴰ.head {x} {xs} e) h =
    let px : p x ≡ true = (rw e at h) in rw px (Memᴰ.head (ap key e))
enqueue_by-mem key p a (Memᴰ.tail {x} {xs} m) h = elim (Bool-cases (p x)) [
  | inl t ↦ rw t (Memᴰ.tail (enqueue_by-mem key p a m h))
  | inr t ↦ rw t (enqueue_by-mem key p a m h)
]

pub enqueue-mem :
    (p : Agent → Bool) (a : Agent) {agents : List Agent}
    → Memᴰ a agents
    → p a ≡ true
    → Memᴰ (agent_key a) (enqueue p agents)
enqueue-mem p a m h = enqueue_by-mem agent_key p a m h

pub or-eq-false : (a b : Bool) → (a || b) ≡ false → (a ≡ false) × (b ≡ false)
or-eq-false false b h = (refl, h)
or-eq-false true b h = cc

resolve_ref-agree :
    (key : NamespacedName) (get get' : NamespacedName → Fetched Agent)
    (ref : Option ObjectReference) (ns : String)
    → AgreeExcept key get get'
    → refers_to key ns ref ≡ false
    → resolve_ref get ref ns ≡ resolve_ref get' ref ns
resolve_ref-agree key get get' none ns agree h = refl
resolve_ref-agree key get get' (some ref) ns agree h = rw (agree (target ref ns) h)

resolve_sub_agents-agree :
    (key : NamespacedName) (c c' : Cluster) (ns : String) (subs : List SubAgent)
    (acc : Dict ResolvedSubAgent × List String)
    → AgreeExcept key c.get_agent c'.get_agent
    → any (λ (s : SubAgent). refers_to key ns s.agent_ref) subs ≡ false
    → resolve_sub_agents c ns subs acc ≡ resolve_sub_agents c' ns subs acc
unfolding resolve_sub_agents resolve_sub_agent_url get_namespace_with_default
resolve_sub_agents-agree key c c' ns [] acc agree h = refl
resolve_sub_agents-agree key c c' ns (s ∷ rest) acc agree h =
    let (here, later) = or-eq-false _ _ h in
    rw (resolve_ref-agree key c.get_agent c'.get_agent s.agent_ref ns agree here)
      (resolve_sub_agents-agree key c c' ns rest _ agree later)

resolve_all_sub_agents-agree :
    (key : NamespacedName) (c c' : Cluster) (a : Agent)
    → AgreeExcept key c.get_agent c'.get_agent
    → references_sub_agent key a ≡ false
    → resolve_all_sub_agents c a ≡ resolve_all_sub_agents c' a
unfolding resolve_all_sub_agents references_sub_agent
resolve_all_sub_agents-agree key c c' a agree h =
    rw (resolve_sub_agents-agree key c c' a.namespace a.spec.sub_agents ([], []) agree h)

-- If the change of one agent, and of nothing else that the API server returns for agents, changes
-- the result of resolving the sub-agents of a listed agent, then the watch on agents enqueues that
-- listed agent.
pub find_agents_referencing_sub_agent-complete :
    (c c' : Cluster) (updated a : Agent) (agents : List Agent)
    → AgreeExcept (agent_key updated) c.get_agent c'.get_agent
    → Memᴰ a agents
    → resolve_all_sub_agents c a ≢ resolve_all_sub_agents c' a
    → Memᴰ (agent_key a) (find_agents_referencing_sub_agent (some agents) updated)
unfolding find_agents_referencing_sub_agent
find_agents_referencing_sub_agent-complete c c' updated a agents agree m changed =
    elim (Bool-cases (references_sub_agent (agent_key updated) a)) [
      | inl yes' ↦ enqueue-mem (references_sub_agent (agent_key updated)) a m yes'
      | inr no' ↦
          absurd (changed (resolve_all_sub_agents-agree (agent_key updated) c c' a agree no'))
    ]
