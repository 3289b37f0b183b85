-- ===== src/Workforce/Collect.antt =====
-- traverseAgent over all fuels, and collectTransitiveAgentsAndTools against reachability.
use ronak_agentk_runtime.Base.{
  ℕ, zero, suc, ◌≤◌, ◌<◌, String, true, false, Option, none, some, List, [], ◌∷◌, lookup, ◌≡◌, ◌≢◌,
  ◌⊎◌, inl, inr, refl, sym, ap, ◌∙◌, arith, eq_iff, eq_refl, ◌==◌, Bool-cases, Fetched, found,
  not_found, no_match, failed, length,
}
use mathlib.Core.List.{Memᴰ}
use mathlib.Core.Path.{subst}
use mathlib.Core.List.Memᴰ
use ronak_agentk_runtime.Kube.{ObjectReference, NamespacedName}
use ronak_agentk_runtime.Api.Agent.{Agent, SubAgent}
use ronak_agentk_runtime.Api.Resources.{AgenticWorkforce}
use ronak_agentk_runtime.Refs.Cluster.{Cluster, target, show_key}
use ronak_agentk_runtime.Workforce.Traverse.{
  Walk, has, mark, cluster_agent, collect_tools, traverse_subs, expand, traverse_agent,
  traverse_entries, collect_walk, empty_walk,
}
use ronak_agentk_runtime.Workforce.Reachable.{
  IsSucc, succ, remote, IsUniverse, Reaches, entry, step,
}
use ronak_agentk_runtime.Workforce.Visits.{
  has-insert, seen, Grows, unseen, unseen_mono, unseen_strict, IsDone, IsDone-refl, IsDone-trans,
  Visiting, IsFit, IsMarked, traverse_subs_lem,
}

pub seen-mark : (w : Walk) (k : NamespacedName) → seen (mark k w) k ≡ true
seen-mark w k = rw (has-insert (show_key k) (show_key k) (cluster_agent k) w.agents, eq_refl)

pub Grows-mark : (w : Walk) (k : NamespacedName) → Grows w (mark k w)
Grows-mark w k s h = rw (has-insert (show_key k) s (cluster_agent k) w.agents) (ground (arith, h))

module _ (c : Cluster) (u : List NamespacedName) (uni : IsUniverse c u) where
  -- A marked key is the new one, or was there before.
  seen-mark_cases :
      (w : Walk) (k j : NamespacedName)
      → Memᴰ k u
      → Memᴰ j u
      → seen (mark k w) j ≡ true
      → (k ≡ j) ⊎ (seen w j ≡ true)
  seen-mark_cases w k j mk mj h =
      let h' = (rw (has-insert (show_key k) (show_key j) (cluster_agent k) w.agents) at h) in
      elim (Bool-cases (show_key k == show_key j)) [
        | inl e ↦ inl (uni.distinct k j mk mj ((eq_iff _ _).0 e))
        | inr e ↦ inr (rw e at h')
      ]

  -- After the fetch: the agent is marked, and so is what it refers to.
  module _ (f : ℕ) (visit : NamespacedName → Walk → Walk) (rec : Visiting c u f visit) (w : Walk)
      (k : NamespacedName) (mk : Memᴰ k u) (fresh : seen w k ≡ false)
      (room : unseen u w < suc f) where
    pub fit_lem :
        (a : Agent)
        → c.get_agent k ≡ found a
        → (s : SubAgent) → Memᴰ s a.spec.sub_agents
        → (o : Option ObjectReference) → s.agent_ref ≡ o
        → IsFit c u f visit a.namespace rec o s.url
    fit_lem a e s m (some ref) eo = uni.closed k _ mk (succ a s ref e m eo refl)
    fit_lem a e s m none eo =
        λ nonempty j mj. uni.apart k j s.url mk mj (remote a s e m eo nonempty refl)

    not_found-IsDone :
        ((a : Agent) → c.get_agent k ≢ found a)
        → IsDone c u w (mark k w) × (seen (mark k w) k ≡ true)
    not_found-IsDone missing = (
      record {
        grows = Grows-mark w k;
        finished = λ j mj h. elim (seen-mark_cases w k j mk mj h) [
          | inl e ↦ inr (λ i s. absurd (no_succ (rw (← e) at s)))
          | inr old ↦ inl old
        ];
      },
      seen-mark w k,
    )
      where
        no_succ : {i : NamespacedName} → IsSucc c k i → ⊥
        no_succ (succ a s ref e m eo ei) = missing a e

    found-IsDone :
        (a : Agent)
        → c.get_agent k ≡ found a
        → let w' = expand visit (found a) (mark k w) in IsDone c u w w' × (seen w' k ≡ true)
    found-IsDone a e =
        let v = record (mark k w) { tools = collect_tools a.namespace a.spec.tools w.tools } in
        let w' = traverse_subs visit a.namespace a.spec.sub_agents v in
        let smaller = unseen_strict w v k (Grows-mark w k) mk fresh (seen-mark w k) in
        let subs =
          traverse_subs_lem c u f visit a.namespace rec a.spec.sub_agents v
            (λ s m. fit_lem a e s m s.agent_ref refl) (omega arith) in
        (
          record {
            grows = λ s h. subs.0.grows s (Grows-mark w k s h);
            finished = λ j mj h. elim (subs.0.finished j mj h) [
              | inl hv ↦ elim (seen-mark_cases w k j mk mj hv) [
                | inl same ↦ inr (λ i s. marked a e subs.1 (rw (← same) at s))
                | inr old ↦ inl old
              ]
              | inr done ↦ inr done
            ];
          },
          subs.0.grows (show_key k) (seen-mark w k),
        )
      where
        marked :
            (a : Agent)
            → c.get_agent k ≡ found a
            → {w' : Walk}
            → ((s : SubAgent)
                → Memᴰ s a.spec.sub_agents
                → IsMarked c u f visit a.namespace rec s.agent_ref w')
            → {i : NamespacedName} → IsSucc c k i
            → seen w' i ≡ true
        marked a e {w'} all (succ b s ref eb m eo ei) =
            let ab : a ≡ b = cc (e, eb) in
            let m' = subst (λ (x : Agent). Memᴰ s x.spec.sub_agents) (sym ab) m in
            let here = subst (λ o. IsMarked c u f visit a.namespace rec o w') eo (all s m') in
            subst (λ x. seen w' x ≡ true) (ap (λ (x : Agent). target ref x.namespace) ab ∙ sym ei)
              here

    expand-IsDone :
        (o : Fetched Agent)
        → c.get_agent k ≡ o
        → IsDone c u w (expand visit o (mark k w)) × (seen (expand visit o (mark k w)) k ≡ true)
    expand-IsDone (found a) e = found-IsDone a e
    expand-IsDone not_found e = not_found-IsDone (λ a e'. cc (e, e'))
    expand-IsDone no_match e = not_found-IsDone (λ a e'. cc (e, e'))
    expand-IsDone (failed m) e = not_found-IsDone (λ a e'. cc (e, e'))

  pub traverse_agent_done : (f : ℕ) → Visiting c u f (traverse_agent c f)
  unfolding traverse_agent
  traverse_agent_done zero k w mk h = absurd (omega arith)
  traverse_agent_done (suc f) k w mk h = elim (Bool-cases (seen w k)) [
    | inl t ↦ rw (t, traverse_agent) (IsDone-refl c u w, t)
    | inr t ↦
        rw (t, traverse_agent)
          (expand-IsDone f (traverse_agent c f) (traverse_agent_done f) w k mk t h (c.get_agent k)
            refl)
  ]

  seen_empty : (k : NamespacedName) → seen empty_walk k ≡ false
  unfolding lookup
  seen_empty k = refl

  pub unseen-le-length : (v : List NamespacedName) (w : Walk) → unseen v w ≤ length v
  unseen-le-length [] w = omega arith
  unseen-le-length (k ∷ v) w = ground (arith, unseen-le-length v w)

  -- The loop over the entry points.
  pub traverse_entries-IsDone :
      (f : ℕ) (ns : String) (refs : List (Option ObjectReference)) (w : Walk)
      → ((ref : ObjectReference) → Memᴰ (some ref) refs → Memᴰ (target ref ns) u)
      → unseen u w < f
      → IsDone c u w (traverse_entries c f ns refs w)
        × ((ref : ObjectReference)
            → Memᴰ (some ref) refs
            → seen (traverse_entries c f ns refs w) (target ref ns) ≡ true)
  unfolding traverse_entries
  traverse_entries-IsDone f ns [] w fit h = (IsDone-refl c u w, λ ref m. elim m [ ])
  traverse_entries-IsDone f ns (none ∷ rest) w fit h =
      let later = traverse_entries-IsDone f ns rest w (λ ref m. fit ref (Memᴰ.tail m)) h in
      (later.0, λ ref m. elim (Memᴰ.cases_cons m) [ inl e ↦ cc e | inr m' ↦ later.1 ref m' ])
  traverse_entries-IsDone f ns (some r ∷ rest) w fit h =
      let first = traverse_agent_done f (target r ns) w (fit r (Memᴰ.head refl)) h in
      let v = traverse_agent c f (target r ns) w in
      let later =
        traverse_entries-IsDone f ns rest v (λ ref m. fit ref (Memᴰ.tail m))
          (omega (arith, unseen_mono u w v first.0.grows)) in
      (
        IsDone-trans c u w v (traverse_entries c f ns rest v) first.0 later.0,
        λ ref m. elim (Memᴰ.cases_cons m) [
          | inl e ↦
              let same : ref ≡ r = cc e in rw same (later.0.grows (show_key (target r ns)) first.1)
          | inr m' ↦ later.1 ref m'
        ],
      )

-- A reached agent is in the universe, and the finished walk has it.
module _ (c : Cluster) (u : List NamespacedName) (wf : AgenticWorkforce) (uni : IsUniverse c u)
    (entries : (ref : ObjectReference)
      → Memᴰ (some ref) wf.entry_point_agents
      → Memᴰ (target ref wf.namespace) u)
    (fuel : ℕ) (room : length u < fuel) where
  pub reached :
      (k : NamespacedName) → Reaches c wf k → Memᴰ k u × (seen (collect_walk c fuel wf) k ≡ true)
  unfolding collect_walk
  reached k (entry ref m e) =
      let all =
        traverse_entries-IsDone c u uni fuel wf.namespace wf.entry_point_agents empty_walk entries
          (omega (arith, unseen-le-length c u uni u empty_walk)) in
      (
        subst (λ x. Memᴰ x u) (sym e) (entries ref m),
        subst (λ x. seen (collect_walk c fuel wf) x ≡ true) (sym e) (all.1 ref m),
      )
  reached j (step {k} r s) =
      let all =
        traverse_entries-IsDone c u uni fuel wf.namespace wf.entry_point_agents empty_walk entries
          (omega (arith, unseen-le-length c u uni u empty_walk)) in
      let (mk, hk) = reached k r in
      (
        uni.closed k j mk s,
        elim (all.0.finished k mk hk) [ inl old ↦ cc (old, seen_empty c u uni k) | inr f ↦ f j s ],
      )

pub collect_walk_complete :
    (c : Cluster) (u : List NamespacedName) (wf : AgenticWorkforce)
    → IsUniverse c u
    → ((ref : ObjectReference)
        → Memᴰ (some ref) wf.entry_point_agents
        → Memᴰ (target ref wf.namespace) u)
    → (fuel : ℕ) → length u < fuel
    → (k : NamespacedName) → Reaches c wf k
    → has (show_key k) (collect_walk c fuel wf).agents ≡ true
collect_walk_complete c u wf uni entries fuel room k r =
    (reached c u wf uni entries fuel room k r).1
