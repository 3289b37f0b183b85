-- ===== src/Workforce/Sound.antt =====
-- traverseAgent records nothing but the agents that the workforce reaches and their remote
-- sub-agents.
use ronak_agentk_runtime.Base.{
  ℕ, zero, suc, String, true, Option, none, some, List, [], ◌∷◌, insert, lookup, ◌≡◌, inl, inr,
  refl, sym, ap, ◌∙◌, ◌<◌, length, eq_iff, ◌==◌, Bool-cases, Option-cases, lookup-insert, Fetched,
  found, not_found, no_match, failed, non_empty,
}
use mathlib.Core.List.{Memᴰ}
use mathlib.Core.Path.{subst₂}
use ronak_agentk_runtime.Kube.{ObjectReference, NamespacedName}
use ronak_agentk_runtime.Api.Agent.{Agent, SubAgent}
use ronak_agentk_runtime.Api.Resources.{AgenticWorkforce, TransitiveAgent}
use ronak_agentk_runtime.Refs.Cluster.{Cluster, target, show_key}
use ronak_agentk_runtime.Workforce.Traverse.{
  Walk, has, mark, cluster_agent, remote_agent, collect_tools, visit_sub, traverse_subs, expand,
  traverse_agent, traverse_entries, collect_walk, empty_walk,
}
use ronak_agentk_runtime.Workforce.Reachable.{
  succ, IsRemote, remote, IsUniverse, Reaches, entry, step,
}
use ronak_agentk_runtime.Workforce.Visits.{seen}
use ronak_agentk_runtime.Workforce.Collect.{reached}

module _ (c : Cluster) (wf : AgenticWorkforce) where
  -- Where a recorded entry comes from.
  pub data Origin (s : String) (v : TransitiveAgent) : Type 0 where
    from_cluster :
        (k : NamespacedName) → Reaches c wf k → s ≡ show_key k → v ≡ cluster_agent k → Origin s v
    from_url : (k : NamespacedName) → Reaches c wf k → IsRemote c k s → v.url ≡ s → Origin s v

  abbrev pub IsSound : Walk → Type 0
  IsSound w = (s : String) (v : TransitiveAgent) → lookup s w.agents ≡ some v → Origin s v

  insert-IsSound :
      (k : String) (v : TransitiveAgent) (w : Walk)
      → Origin k v
      → IsSound w
      → IsSound (record w { agents = insert k v w.agents })
  insert-IsSound k v w o h s x e =
      let e' = (rw (lookup-insert k s v w.agents) at e) in
      elim (Bool-cases (k == s)) [
        | inl same ↦
            let ks : k ≡ s = (eq_iff k s).0 same in
            let vx : v ≡ x = cc (rw same at e') in subst₂ (λ a b. Origin a b) ks vx o
        | inr other ↦ h s x (rw other at e')
      ]

  abbrev Keeps : (NamespacedName → Walk → Walk) → Type 0
  Keeps visit = (j : NamespacedName) (w : Walk) → Reaches c wf j → IsSound w → IsSound (visit j w)

  module _ (visit : NamespacedName → Walk → Walk) (keeps : Keeps visit) (k : NamespacedName)
      (r : Reaches c wf k) (a : Agent) (e : c.get_agent k ≡ found a) where
    visit_sub-IsSound :
        (s : SubAgent) (o : Option ObjectReference) (w : Walk)
        → Memᴰ s a.spec.sub_agents
        → s.agent_ref ≡ o
        → IsSound w
        → IsSound (visit_sub visit a.namespace s o w)
    visit_sub-IsSound s (some ref) w m eo h =
        keeps (target ref a.namespace) w (step r (succ a s ref e m eo refl)) h
    visit_sub-IsSound s none w m eo h = elim (Bool-cases (non_empty s.url)) [
      | inl t ↦
          rw t (
            insert-IsSound s.url (remote_agent s) w (from_url k r (remote a s e m eo t refl) refl)
              h)
      | inr t ↦ rw t h
    ]

    traverse_subs-IsSound :
        (subs : List SubAgent) (w : Walk)
        → ((s : SubAgent) → Memᴰ s subs → Memᴰ s a.spec.sub_agents)
        → IsSound w
        → IsSound (traverse_subs visit a.namespace subs w)
    unfolding traverse_subs
    traverse_subs-IsSound [] w within h = h
    traverse_subs-IsSound (s ∷ rest) w within h =
        traverse_subs-IsSound rest (visit_sub visit a.namespace s s.agent_ref w)
          (λ t m. within t (Memᴰ.tail m))
          (visit_sub-IsSound s s.agent_ref w (within s (Memᴰ.head refl)) refl h)

  expand-IsSound :
      (visit : NamespacedName → Walk → Walk)
      → Keeps visit
      → (k : NamespacedName) → Reaches c wf k
      → (w : Walk) → IsSound w
      → (o : Fetched Agent) → c.get_agent k ≡ o
      → IsSound (expand visit o w)
  expand-IsSound visit keeps k r w h (found a) e =
      traverse_subs-IsSound visit keeps k r a e a.spec.sub_agents
        (record w { tools = collect_tools a.namespace a.spec.tools w.tools }) (λ s m. m) h
  expand-IsSound visit keeps k r w h not_found e = h
  expand-IsSound visit keeps k r w h no_match e = h
  expand-IsSound visit keeps k r w h (failed m) e = h

  traverse_agent-IsSound : (f : ℕ) → Keeps (traverse_agent c f)
  unfolding traverse_agent
  traverse_agent-IsSound zero k w r h = h
  traverse_agent-IsSound (suc f) k w r h = elim (Bool-cases (seen w k)) [
    | inl t ↦ rw (t, traverse_agent) h
    | inr t ↦
        rw (t, traverse_agent)
          (expand-IsSound (traverse_agent c f) (traverse_agent-IsSound f) k r (mark k w)
            (insert-IsSound (show_key k) (cluster_agent k) w (from_cluster k r refl refl) h)
            (c.get_agent k) refl)
  ]

  traverse_entries-IsSound :
      (f : ℕ) (refs : List (Option ObjectReference)) (w : Walk)
      → ((ref : ObjectReference) → Memᴰ (some ref) refs → Memᴰ (some ref) wf.entry_point_agents)
      → IsSound w
      → IsSound (traverse_entries c f wf.namespace refs w)
  unfolding traverse_entries
  traverse_entries-IsSound f [] w within h = h
  traverse_entries-IsSound f (none ∷ rest) w within h =
      traverse_entries-IsSound f rest w (λ ref m. within ref (Memᴰ.tail m)) h
  traverse_entries-IsSound f (some ref ∷ rest) w within h =
      traverse_entries-IsSound f rest (traverse_agent c f (target ref wf.namespace) w)
        (λ ref' m. within ref' (Memᴰ.tail m))
        (traverse_agent-IsSound f (target ref wf.namespace) w
          (entry ref (within ref (Memᴰ.head refl)) refl) h)

  -- Every entry that the traversal records, whatever the fuel, comes from the cluster: it is a
  -- reached agent under that agent's key, or an entry under the URL of a remote sub-agent of a
  -- reached agent, and has that URL.
  pub collect_walk-IsSound :
      (fuel : ℕ) (s : String) (v : TransitiveAgent)
      → lookup s (collect_walk c fuel wf).agents ≡ some v
      → Origin s v
  unfolding collect_walk lookup
  collect_walk-IsSound fuel s v h =
      traverse_entries-IsSound fuel wf.entry_point_agents empty_walk (λ ref m. m) (λ t x e. cc e) s
        v h

-- The traversal of a workforce is complete and right: with more fuel than a finite universe of
-- agents has members, the map of visited agents holds, at the key of every agent that the entry
-- points reach through references, that agent's own name and namespace. Cycles are allowed.
-- Assumed: the universe is closed under references and holds the entry points, its keys print
-- differently, and no remote agent's URL prints like one of them.
pub collect_walk-exact :
    (c : Cluster) (u : List NamespacedName) (wf : AgenticWorkforce)
    → IsUniverse c u
    → ((ref : ObjectReference)
        → Memᴰ (some ref) wf.entry_point_agents
        → Memᴰ (target ref wf.namespace) u)
    → (fuel : ℕ) → length u < fuel
    → (k : NamespacedName) → Reaches c wf k
    → lookup (show_key k) (collect_walk c fuel wf).agents ≡ some (cluster_agent k)
collect_walk-exact c u wf uni entries fuel room k r =
    let (mk, hk) = reached c u wf uni entries fuel room k r in
    elim (Option-cases (lookup (show_key k) (collect_walk c fuel wf).agents)) [
      | inl e ↦ absurd (missing e hk)
      | inr (v, e) ↦ e ∙ ap some (label v (collect_walk-IsSound c wf fuel (show_key k) v e) mk)
    ]
  where
    missing :
        lookup (show_key k) (collect_walk c fuel wf).agents ≡ none
        → has (show_key k) (collect_walk c fuel wf).agents ≡ true
        → ⊥
    missing e h = cc (rw e at h)

    label : (v : TransitiveAgent) → Origin c wf (show_key k) v → Memᴰ k u → v ≡ cluster_agent k
    label v (from_cluster j rj e ev) mk =
        let jk : k ≡ j = uni.distinct k j mk (reached c u wf uni entries fuel room j rj).0 e in
        ev ∙ ap cluster_agent (sym jk)
    label v (from_url j rj rem ev) mk =
        absurd
          (uni.apart j k (show_key k) (reached c u wf uni entries fuel room j rj).0 mk rem refl)
