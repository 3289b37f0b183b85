-- ===== src/Refs/Resolution.antt =====
-- When agent_subagent.go resolves every sub-agent of an agent.
use ronak_agentk_runtime.Base.{
  String, true, none, List, [], ◌∷◌, ◌++◌, ◌≡◌, ◌≢◌, ◌↔◌, refl, Result, ok, err, is_ok, Dict, All,
}
use ronak_agentk_runtime.Api.Agent.{Agent, SubAgent}
use ronak_agentk_runtime.Refs.Cluster.{Cluster}
use ronak_agentk_runtime.Refs.SubAgents.{
  ResolvedSubAgent, resolve_sub_agent_url, resolve_sub_agents, resolve_all_sub_agents, or_issues,
  record_sub_agent,
}

-- The sub-agents of a list resolve, one and all.
abbrev pub Resolves : Cluster → String → List SubAgent → Type 0
Resolves c ns = All (λ (s : SubAgent). is_ok (resolve_sub_agent_url c s ns) ≡ true)

nil_of_append : (xs : List String) (x : String) → (xs ++ x ∷ []) ≢ []
nil_of_append [] x h = cc
nil_of_append (y ∷ ys) x h = cc

resolve_sub_agents-issues :
    (c : Cluster) (ns : String) (subs : List SubAgent) (acc : Dict ResolvedSubAgent × List String)
    → ((resolve_sub_agents c ns subs acc).1 ≡ []) ↔ ((acc.1 ≡ []) × Resolves c ns subs)
unfolding resolve_sub_agents
resolve_sub_agents-issues c ns [] acc = (λ h. (h, tt), λ h. h.0)
resolve_sub_agents-issues c ns (s ∷ rest) (resolved, issues) =
    go (resolve_sub_agents-issues c ns rest) (resolve_sub_agent_url c s ns)
  where
    go :
        ((acc : Dict ResolvedSubAgent × List String)
          → ((resolve_sub_agents c ns rest acc).1 ≡ []) ↔ ((acc.1 ≡ []) × Resolves c ns rest))
        → (r : Result String)
        → ((resolve_sub_agents c ns rest (record_sub_agent s r (resolved, issues))).1 ≡ [])
          ↔ ((issues ≡ []) × ((is_ok r ≡ true) × Resolves c ns rest))
    go ih (ok url) = (
      λ h. let (a, b) = (ih (record_sub_agent s (ok url) (resolved, issues))).0 h in (a, (refl, b)),
      λ h. (ih (record_sub_agent s (ok url) (resolved, issues))).1 (h.0, h.1.1),
    )
    go ih (err m) = (
      λ h.
          absurd
            (nil_of_append issues _ ((ih (record_sub_agent s (err m) (resolved, issues))).0 h).0),
      λ h. cc (h.1.0),
    )

or_issues-eq-none :
    (what : String) (acc : Dict ResolvedSubAgent × List String)
    → ((or_issues what acc).1 ≡ none) ↔ (acc.1 ≡ [])
or_issues-eq-none what (r, []) = (λ h. refl, λ h. refl)
or_issues-eq-none what (r, i ∷ is) = (λ h. cc, λ h. cc)

-- Resolving the sub-agents of an agent gives no error exactly when each of them resolves by
-- itself; one failure is enough for an error.
pub resolve_all_sub_agents-ok_iff :
    (c : Cluster) (a : Agent)
    → ((resolve_all_sub_agents c a).1 ≡ none) ↔ Resolves c a.namespace a.spec.sub_agents
unfolding resolve_all_sub_agents
resolve_all_sub_agents-ok_iff c a =
    let loop = resolve_sub_agents-issues c a.namespace a.spec.sub_agents ([], []) in
    let last =
      or_issues-eq-none " subAgent(s): "
        (resolve_sub_agents c a.namespace a.spec.sub_agents ([], [])) in
    (λ h. (loop.0 (last.0 h)).1, λ h. last.1 (loop.1 (refl, h)))
