-- ===== src/Workforce/Watch.antt =====
-- The watch of agenticworkforce_reconciler.go on agents.
use ronak_agentk_runtime.Base.{
  ℕ, ◌<◌, String, Bool, true, false, ◌||◌, not, some, List, [], ◌∷◌, map, ◌≡◌, ◌⊎◌, inl, inr, refl,
  ap, arith, eq_iff, eq_refl, any, lookup, Dict, Bool-cases, length,
}
use mathlib.Core.List.{Memᴰ}
use ronak_agentk_runtime.Kube.{ObjectReference, NamespacedName}
use ronak_agentk_runtime.Api.Agent.{Agent, Condition}
use ronak_agentk_runtime.Api.Resources.{AgenticWorkforce, TransitiveAgent}
use ronak_agentk_runtime.Refs.Cluster.{Cluster, target, show_key, same_key, agent_key}
use ronak_agentk_runtime.Workforce.Traverse.{collect_transitive, collect_walk, cluster_agent}
use ronak_agentk_runtime.Workforce.Reachable.{IsUniverse, Reaches}
use ronak_agentk_runtime.Workforce.Sound.{collect_walk-exact}
use ronak_agentk_runtime.Workforce.Reconcile.{
  reconciled, workforce_key, is_transitive, refers, find_loop, find_workforces_referencing_agent,
}

same_key_path : (a b : NamespacedName) → same_key a b ≡ true → a ≡ b
same_key_path a b h = ground (arith, h, eq_iff a.name b.name, eq_iff a.namespace b.namespace)

find_loop-mem :
    (key : NamespacedName) (wf : AgenticWorkforce) (enqueued : List NamespacedName)
    {wfs : List AgenticWorkforce}
    → Memᴰ wf wfs
    → refers key wf ≡ true
    → Memᴰ (workforce_key wf) (find_loop key enqueued wfs)
      ⊎ (any (same_key (workforce_key wf)) enqueued ≡ true)
unfolding find_loop
find_loop-mem key wf enqueued (Memᴰ.head {x} {xs} e) r =
    elim (Bool-cases (any (same_key (workforce_key x)) enqueued)) [
      | inl old ↦ inr (rw e old)
      | inr new ↦
          let rx : refers key x ≡ true = (rw e at r) in
          inl (rw (new, rx, find_loop) (Memᴰ.head (ap workforce_key e)))
    ]
find_loop-mem key wf enqueued (Memᴰ.tail {x} {xs} m) r =
    elim (Bool-cases (any (same_key (workforce_key x)) enqueued || not (refers key x))) [
      | inl t ↦ rw (t, find_loop) (find_loop-mem key wf enqueued m r)
      | inr t ↦
          rw (t, find_loop)
            (elim (find_loop-mem key wf (workforce_key x ∷ enqueued) m r) [
              | inl later ↦ inl (Memᴰ.tail later)
              | inr old ↦ elim (Bool-cases (same_key (workforce_key wf) (workforce_key x))) [
                | inl same ↦
                    inl (Memᴰ.head (same_key_path (workforce_key wf) (workforce_key x) same))
                | inr other ↦ inr (rw other at old)
              ]
            ])
    ]

-- A workforce that refers to the agent is enqueued.
find_workforces-mem :
    (a : Agent) (wf : AgenticWorkforce) (wfs : List AgenticWorkforce)
    → Memᴰ wf wfs
    → refers (agent_key a) wf ≡ true
    → Memᴰ (workforce_key wf) (find_workforces_referencing_agent (some wfs) a)
unfolding find_workforces_referencing_agent
find_workforces-mem a wf wfs m r = elim (find_loop-mem (agent_key a) wf [] m r) [
  | inl here ↦ here
  | inr old ↦ cc old
]

any-values :
    (p : TransitiveAgent → Bool) (s : String) (v : TransitiveAgent) (m : Dict TransitiveAgent)
    → lookup s m ≡ some v
    → p v ≡ true
    → any p (map (λ (k, a). a) m) ≡ true
unfolding lookup
any-values p s v [] h e = cc h
any-values p s v ((j, w) ∷ m) h e = ground (arith, any-values p s v m)

or-true : (a b : Bool) → b ≡ true → (a || b) ≡ true
or-true true b h = refl
or-true false b h = h

refers-reconciled :
    (set : List Condition → Condition → List Condition) (c : Cluster) (u : List NamespacedName)
    (wf : AgenticWorkforce)
    → IsUniverse c u
    → ((ref : ObjectReference)
        → Memᴰ (some ref) wf.entry_point_agents
        → Memᴰ (target ref wf.namespace) u)
    → (fuel : ℕ) → length u < fuel
    → (k : NamespacedName) → Reaches c wf k
    → refers k (reconciled set c fuel wf) ≡ true
unfolding refers reconciled collect_transitive
refers-reconciled set c u wf uni entries fuel room k r = or-true _ _ (
    any-values (is_transitive k) (show_key k) (cluster_agent k) (collect_walk c fuel wf).agents
      (collect_walk-exact c u wf uni entries fuel room k r)
      (rw (eq_refl k.name, eq_refl k.namespace)))

-- The watch of the workforce controller misses nothing: a workforce whose status was written by a
-- reconciliation, and which is listed, is enqueued for every change of an agent that it reached in
-- that reconciliation. Assumed: as for the traversal, a finite universe of agents with keys that
-- print differently and fuel above its size.
pub find_workforces-reconciled :
    (set : List Condition → Condition → List Condition) (c : Cluster) (u : List NamespacedName)
    (wf : AgenticWorkforce)
    → IsUniverse c u
    → ((ref : ObjectReference)
        → Memᴰ (some ref) wf.entry_point_agents
        → Memᴰ (target ref wf.namespace) u)
    → (fuel : ℕ) → length u < fuel
    → (a : Agent) → Reaches c wf (agent_key a)
    → (wfs : List AgenticWorkforce) → Memᴰ (reconciled set c fuel wf) wfs
    → Memᴰ (workforce_key wf) (find_workforces_referencing_agent (some wfs) a)
unfolding reconciled
find_workforces-reconciled set c u wf uni entries fuel room a r wfs m =
    find_workforces-mem a (reconciled set c fuel wf) wfs m
      (refers-reconciled set c u wf uni entries fuel room (agent_key a) r)
