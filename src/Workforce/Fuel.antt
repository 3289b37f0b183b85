-- ===== src/Workforce/Fuel.antt =====
-- The fuel of the traversal: with more than there are agents it never runs out.
use ronak_agentk_runtime.Base.{
  ℕ, zero, suc, ◌≤◌, ◌<◌, String, false, Option, none, some, List, [], ◌∷◌, ◌≡◌, inl, inr, refl,
  sym, ap, ◌∙◌, arith, Bool-cases, Fetched, found, not_found, no_match, failed, length,
}
use mathlib.Core.Path.{subst}
use mathlib.Core.List.{Memᴰ}
use mathlib.Core.List.Memᴰ
use ronak_agentk_runtime.Kube.{ObjectReference, NamespacedName}
use ronak_agentk_runtime.Api.Agent.{Agent, SubAgent}
use ronak_agentk_runtime.Api.Resources.{AgenticWorkforce}
use ronak_agentk_runtime.Refs.Cluster.{Cluster, target}
use ronak_agentk_runtime.Workforce.Traverse.{
  Walk, mark, collect_tools, visit_sub, traverse_subs, expand, traverse_agent, traverse_entries,
  collect_walk, empty_walk,
}
use ronak_agentk_runtime.Workforce.Reachable.{IsUniverse}
use ronak_agentk_runtime.Workforce.Visits.{
  seen, unseen, unseen_mono, unseen_strict, Visiting, IsFit, traverse_subs_lem,
}
use ronak_agentk_runtime.Workforce.Collect.{
  Grows-mark, seen-mark, fit_lem, traverse_agent_done, unseen-le-length,
}

module _ (c : Cluster) (u : List NamespacedName) where
  -- Two visits agree where few enough agents are unseen.
  abbrev Agree : ℕ → (NamespacedName → Walk → Walk) → (NamespacedName → Walk → Walk) → Type 0
  Agree f visit visit' =
      (j : NamespacedName) (w : Walk) → Memᴰ j u → unseen u w < f → visit j w ≡ visit' j w

  module _ (f : ℕ) (visit visit' : NamespacedName → Walk → Walk) (ns : String)
      (rec : Visiting c u f visit) (agree : Agree f visit visit') where
    visit_sub-agree :
        (s : SubAgent) (o : Option ObjectReference) (w : Walk)
        → IsFit c u f visit ns rec o s.url
        → unseen u w < f
        → visit_sub visit ns s o w ≡ visit_sub visit' ns s o w
    visit_sub-agree s none w fit h = refl
    visit_sub-agree s (some ref) w fit h = agree (target ref ns) w fit h

    traverse_subs-agree :
        (subs : List SubAgent) (w : Walk)
        → ((s : SubAgent) → Memᴰ s subs → IsFit c u f visit ns rec s.agent_ref s.url)
        → unseen u w < f
        → traverse_subs visit ns subs w ≡ traverse_subs visit' ns subs w
    unfolding traverse_subs
    traverse_subs-agree [] w fit h = refl
    traverse_subs-agree (s ∷ rest) w fit h =
        let v = visit_sub visit ns s s.agent_ref w in
        let one =
          traverse_subs_lem c u f visit ns rec (s ∷ []) w
            (λ t m. elim (Memᴰ.cases_cons m) [
              | inl e ↦
                  subst (λ (x : SubAgent). IsFit c u f visit ns rec x.agent_ref x.url) (sym e)
                    (fit s (Memᴰ.head refl))
              | inr m' ↦ elim m' [ ]
            ])
            h in
        traverse_subs-agree rest v (λ t m. fit t (Memᴰ.tail m))
          (omega (arith, unseen_mono u w v one.0.grows))
        ∙ ap (traverse_subs visit' ns rest)
            (visit_sub-agree s s.agent_ref w (fit s (Memᴰ.head refl)) h)

module _ (c : Cluster) (u : List NamespacedName) (uni : IsUniverse c u) where
  expand-Agree :
      (f : ℕ) (visit visit' : NamespacedName → Walk → Walk) (rec : Visiting c u f visit)
      → Agree c u f visit visit'
      → (w : Walk) (k : NamespacedName) → Memᴰ k u
      → seen w k ≡ false
      → unseen u w < suc f
      → (o : Fetched Agent) → c.get_agent k ≡ o
      → expand visit o (mark k w) ≡ expand visit' o (mark k w)
  expand-Agree f visit visit' rec agree w k mk fresh room (found a) e =
      let v = record (mark k w) { tools = collect_tools a.namespace a.spec.tools w.tools } in
      traverse_subs-agree c u f visit visit' a.namespace rec agree a.spec.sub_agents v
        (λ s m. fit_lem c u uni f visit rec w k mk fresh room a e s m s.agent_ref refl)
        (omega (arith, unseen_strict w v k (Grows-mark w k) mk fresh (seen-mark w k)))
  expand-Agree f visit visit' rec agree w k mk fresh room not_found e = refl
  expand-Agree f visit visit' rec agree w k mk fresh room no_match e = refl
  expand-Agree f visit visit' rec agree w k mk fresh room (failed m) e = refl

  traverse_agent-fuel : (f f' : ℕ) → f ≤ f' → Agree c u f (traverse_agent c f) (traverse_agent c f')
  unfolding traverse_agent
  traverse_agent-fuel zero f' le k w mk h = absurd (omega arith)
  traverse_agent-fuel (suc f) zero le k w mk h = absurd (omega arith)
  traverse_agent-fuel (suc f) (suc f') le k w mk h = elim (Bool-cases (seen w k)) [
    | inl t ↦ rw (t, traverse_agent) refl
    | inr t ↦
        rw (t, traverse_agent)
          (expand-Agree f (traverse_agent c f) (traverse_agent c f') (traverse_agent_done c u uni f)
            (traverse_agent-fuel f f' (omega arith)) w k mk t h (c.get_agent k) refl)
  ]

  traverse_entries-fuel :
      (f f' : ℕ) (ns : String) (refs : List (Option ObjectReference)) (w : Walk)
      → f ≤ f'
      → ((ref : ObjectReference) → Memᴰ (some ref) refs → Memᴰ (target ref ns) u)
      → unseen u w < f
      → traverse_entries c f ns refs w ≡ traverse_entries c f' ns refs w
  unfolding traverse_entries
  traverse_entries-fuel f f' ns [] w le fit h = refl
  traverse_entries-fuel f f' ns (none ∷ rest) w le fit h =
      traverse_entries-fuel f f' ns rest w le (λ ref m. fit ref (Memᴰ.tail m)) h
  traverse_entries-fuel f f' ns (some r ∷ rest) w le fit h =
      let mr = fit r (Memᴰ.head refl) in
      let v = traverse_agent c f (target r ns) w in
      let done = traverse_agent_done c u uni f (target r ns) w mr h in
      traverse_entries-fuel f f' ns rest v le (λ ref m. fit ref (Memᴰ.tail m))
        (omega (arith, unseen_mono u w v done.0.grows))
      ∙ ap (traverse_entries c f' ns rest) (traverse_agent-fuel f f' le (target r ns) w mr h)

-- The traversal of a workforce needs no more fuel than there are agents: if a finite universe of
-- agents holds the entry points and is closed under the local references of its agents, its keys
-- print differently, and no URL of a remote agent prints like one of its keys, then with more fuel
-- than the universe has members any further fuel gives the same walk.
pub collect_walk-fuel :
    (c : Cluster) (u : List NamespacedName) (wf : AgenticWorkforce)
    → IsUniverse c u
    → ((ref : ObjectReference)
        → Memᴰ (some ref) wf.entry_point_agents
        → Memᴰ (target ref wf.namespace) u)
    → (fuel fuel' : ℕ) → length u < fuel
    → fuel ≤ fuel'
    → collect_walk c fuel wf ≡ collect_walk c fuel' wf
unfolding collect_walk
collect_walk-fuel c u wf uni entries fuel fuel' room le =
    traverse_entries-fuel c u uni fuel fuel' wf.namespace wf.entry_point_agents empty_walk le
      entries (omega (arith, unseen-le-length c u uni u empty_walk))
