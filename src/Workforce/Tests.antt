-- ===== src/Workforce/Tests.antt =====
-- A workforce over a cycle of two agents, one of them with a remote sub-agent.
use ronak_agentk_runtime.Base.{
  insert, ◌≡◌, ◌≢◌, ◌⊎◌, inl, inr, refl, sym, arith, eq_iff, ap, ◌∙◌, String, none, some, List, [],
  ◌∷◌, found, not_found, lookup, if◌then◌else◌, Bool-cases,
}
use mathlib.Core.List.{Memᴰ}
use mathlib.Core.Path.{subst}
use ronak_agentk_runtime.Kube.{NamespacedName, ObjectReference}
use ronak_agentk_runtime.Base.Int.{pos}
use ronak_agentk_runtime.Api.Agent.{Agent, SubAgent, Condition}
use ronak_agentk_runtime.Api.Resources.{AgenticWorkforce}
use ronak_agentk_runtime.Samples.{
  plain_agent, in_default, cluster_sub, remote_sub, server_tool, empty_cluster,
}
use ronak_agentk_runtime.Refs.Cluster.{
  Cluster, get_namespace_with_default, same_key, show_key, target,
}
use ronak_agentk_runtime.Workforce.Traverse.{
  collect_walk, cluster_agent, traverse_entries, traverse_agent, traverse_subs, collect_tools,
}
use ronak_agentk_runtime.Workforce.Reachable.{
  IsSucc, succ, IsRemote, remote, Reaches, entry, step, IsUniverse,
}
use ronak_agentk_runtime.Workforce.Fuel.{collect_walk-fuel}
use ronak_agentk_runtime.Workforce.Sound.{collect_walk-exact}
use ronak_agentk_runtime.Workforce.Reconcile.{
  reconciled, workforce_key, find_workforces_referencing_agent,
}
use ronak_agentk_runtime.Workforce.Watch.{find_workforces-reconciled}

abbrev ping : Agent
ping = plain_agent "ping" "" (cluster_sub "pong" ∷ []) (server_tool "search" ∷ [])

abbrev pong : Agent
pong = plain_agent "pong" "" (cluster_sub "ping" ∷ remote_sub ∷ []) []

abbrev pair : Cluster
pair = record empty_cluster {
  get_agent = λ k.
      if same_key k (in_default "ping")
      then found ping
      else if same_key k (in_default "pong")
      then found pong
      else not_found;
}

abbrev universe : List NamespacedName
universe = in_default "ping" ∷ in_default "pong" ∷ []

abbrev team : AgenticWorkforce
team = record {
  name = "team";
  namespace = "default";
  generation = pos 1;
  entry_point_agents = none ∷ some (record { name = "ping"; namespace = "" }) ∷ [];
  conditions = [];
  transitive_agents = [];
  transitive_tools = [];
}

pair_get : (k : NamespacedName) (a : Agent) → pair.get_agent k ≡ found a → (a ≡ ping) ⊎ (a ≡ pong)
pair_get k a h = elim (Bool-cases (same_key k (in_default "ping"))) [
  | inl p ↦ let e : found ping ≡ found a = (rw p at h) in inl (cc e)
  | inr p ↦ elim (Bool-cases (same_key k (in_default "pong"))) [
    | inl q ↦ let e : found pong ≡ found a = (rw (p, q) at h) in inr (cc e)
    | inr q ↦ let e : not_found ≡ found a = (rw (p, q) at h) in cc e
  ]
]

universe_cases :
    (k : NamespacedName) → Memᴰ k universe → (k ≡ in_default "ping") ⊎ (k ≡ in_default "pong")
universe_cases k (Memᴰ.head e) = inl e
universe_cases k (Memᴰ.tail (Memᴰ.head e)) = inr e
universe_cases k (Memᴰ.tail (Memᴰ.tail m)) = elim m [ ]

ping_mem : Memᴰ (in_default "ping") universe
ping_mem = Memᴰ.head refl

pong_mem : Memᴰ (in_default "pong") universe
pong_mem = Memᴰ.tail (Memᴰ.head refl)

ping_subs : (s : SubAgent) → Memᴰ s ping.spec.sub_agents → s ≡ cluster_sub "pong"
ping_subs s (Memᴰ.head e) = e
ping_subs s (Memᴰ.tail m) = elim m [ ]

pong_subs :
    (s : SubAgent) → Memᴰ s pong.spec.sub_agents → (s ≡ cluster_sub "ping") ⊎ (s ≡ remote_sub)
pong_subs s (Memᴰ.head e) = inl e
pong_subs s (Memᴰ.tail (Memᴰ.head e)) = inr e
pong_subs s (Memᴰ.tail (Memᴰ.tail m)) = elim m [ ]

-- The key that a sub-agent without a namespace names, from an agent of "default".
target_of :
    (s : SubAgent) (name : String) (ref : ObjectReference) (j : NamespacedName)
    → s ≡ cluster_sub name
    → s.agent_ref ≡ some ref
    → j ≡ target ref "default"
    → j ≡ in_default name
unfolding get_namespace_with_default
target_of s name ref j e r t =
    let refs = ap (λ (x : SubAgent). x.agent_ref) e in
    let q : ref ≡ record { name = name; namespace = "" } = cc (refs, r) in
    t ∙ ap (λ x. target x "default") q

pair_closed : (k j : NamespacedName) → Memᴰ k universe → IsSucc pair k j → Memᴰ j universe
pair_closed k j m (succ a s ref e ms r t) = elim (pair_get k a e) [
  | inl p ↦
      let sub = ping_subs s (subst (λ (x : Agent). Memᴰ s x.spec.sub_agents) p ms) in
      let tj = t ∙ ap (λ (x : Agent). target ref x.namespace) p in
      subst (λ x. Memᴰ x universe) (sym (target_of s "pong" ref j sub r tj)) pong_mem
  | inr p ↦
      let tj = t ∙ ap (λ (x : Agent). target ref x.namespace) p in
      elim (pong_subs s (subst (λ (x : Agent). Memᴰ s x.spec.sub_agents) p ms)) [
        | inl sub ↦ subst (λ x. Memᴰ x universe) (sym (target_of s "ping" ref j sub r tj)) ping_mem
        | inr far ↦ cc (ap (λ (x : SubAgent). x.agent_ref) far, r)
      ]
]

keys_differ : show_key (in_default "ping") ≢ show_key (in_default "pong")
keys_differ h = ground (arith, eq_iff "default/ping" "default/pong")

pair_distinct :
    (k j : NamespacedName) → Memᴰ k universe → Memᴰ j universe → show_key k ≡ show_key j → k ≡ j
pair_distinct k j mk mj e = elim (universe_cases k mk) [
  | inl p ↦ elim (universe_cases j mj) [
    | inl q ↦ p ∙ sym q
    | inr q ↦ absurd (keys_differ (ap show_key (sym p) ∙ e ∙ ap show_key q))
  ]
  | inr p ↦ elim (universe_cases j mj) [
    | inl q ↦ absurd (keys_differ (ap show_key (sym q) ∙ sym e ∙ ap show_key p))
    | inr q ↦ p ∙ sym q
  ]
]

remote_url : (k : NamespacedName) (url : String) → IsRemote pair k url → url ≡ "https://far.example"
remote_url k url (remote a s e ms r n u) = elim (pair_get k a e) [
  | inl p ↦
      let sub = ping_subs s (subst (λ (x : Agent). Memᴰ s x.spec.sub_agents) p ms) in
      cc (ap (λ (x : SubAgent). x.agent_ref) sub, r)
  | inr p ↦ elim (pong_subs s (subst (λ (x : Agent). Memᴰ s x.spec.sub_agents) p ms)) [
    | inl sub ↦ cc (ap (λ (x : SubAgent). x.agent_ref) sub, r)
    | inr far ↦ u ∙ ap (λ (x : SubAgent). x.url) far
  ]
]

pair_apart :
    (k j : NamespacedName) (url : String)
    → Memᴰ k universe
    → Memᴰ j universe
    → IsRemote pair k url
    → url ≢ show_key j
pair_apart k j url mk mj rem h = elim (universe_cases j mj) [
  | inl q ↦
      let e = sym (remote_url k url rem) ∙ h ∙ ap show_key q in
      ground (arith, e, eq_iff "https://far.example" "default/ping")
  | inr q ↦
      let e = sym (remote_url k url rem) ∙ h ∙ ap show_key q in
      ground (arith, e, eq_iff "https://far.example" "default/pong")
]

pair-universe : IsUniverse pair universe
pair-universe = record { closed = pair_closed; distinct = pair_distinct; apart = pair_apart }

team_entry :
    (ref : ObjectReference)
    → Memᴰ (some ref) team.entry_point_agents
    → Memᴰ (target ref team.namespace) universe
unfolding get_namespace_with_default
team_entry ref (Memᴰ.head e) = cc e
team_entry ref (Memᴰ.tail (Memᴰ.head e)) =
    let q : ref ≡ record { name = "ping"; namespace = "" } = cc e in
    subst (λ x. Memᴰ x universe) (sym (ap (λ x. target x "default") q)) ping_mem
team_entry ref (Memᴰ.tail (Memᴰ.tail m)) = elim m [ ]

reaches_pong : Reaches pair team (in_default "pong")
unfolding get_namespace_with_default
reaches_pong =
    step
      (entry {k = in_default "ping"} (record { name = "ping"; namespace = "" })
        (Memᴰ.tail (Memᴰ.head refl)) refl)
      (succ ping (cluster_sub "pong") (record { name = "pong"; namespace = "" }) refl
        (Memᴰ.head refl) refl refl)

collect_walk-exact_example :
    lookup "default/pong" (collect_walk pair 3 team).agents
    ≡ some (cluster_agent (in_default "pong"))
collect_walk-exact_example =
    collect_walk-exact pair universe team pair-universe team_entry 3 (omega arith)
      (in_default "pong") reaches_pong

-- A client that keeps the new condition only.
abbrev set_only : List Condition → Condition → List Condition
set_only _ c = c ∷ []

find_workforces-reconciled_example :
    Memᴰ
      (workforce_key team)
      (find_workforces_referencing_agent (some (reconciled set_only pair 3 team ∷ [])) pong)
find_workforces-reconciled_example =
    find_workforces-reconciled set_only pair universe team pair-universe team_entry 3 (omega arith)
      pong reaches_pong (reconciled set_only pair 3 team ∷ []) (Memᴰ.head refl)

far_recorded :
    lookup "https://far.example" (collect_walk pair 3 team).agents
    ≡ some (record { name = "far"; namespace = ""; url = "https://far.example" })
unfolding collect_walk traverse_entries traverse_agent traverse_subs collect_tools insert lookup
    get_namespace_with_default
far_recorded = refl

collect_walk-fuel_example : collect_walk pair 3 team ≡ collect_walk pair 100 team
collect_walk-fuel_example =
    collect_walk-fuel pair universe team pair-universe team_entry 3 100 (omega arith) (omega arith)
