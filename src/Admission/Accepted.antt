-- ===== src/Admission/Accepted.antt =====
-- What the webhooks let through, and what that means for the controllers.
use ronak_agentk_runtime.Base.{
  ℕ, suc, String, Bool, true, false, not, Option, none, some, List, [], ◌∷◌, All, ◌≡◌, ◌≢◌, ◌↔◌,
  ◌⊎◌, refl, arith, eq_iff, is_ok, found,
}
use ronak_agentk_runtime.Kube.{ObjectReference, Volume, VolumeMount}
use ronak_agentk_runtime.Api.Agent.{Agent, SubAgent, AgentTool}
use ronak_agentk_runtime.Refs.Cluster.{Cluster, target}
use ronak_agentk_runtime.Refs.SubAgents.{resolve_sub_agent_url, resolve_all_sub_agents}
use ronak_agentk_runtime.Refs.Resolution.{Resolves, resolve_all_sub_agents-ok_iff}
use ronak_agentk_runtime.Admission.Errors.{FieldError, when, each}
use ronak_agentk_runtime.Admission.Agents.{
  Url, is_template_framework, validate_framework, validate_sub_agent, validate_tool,
}
use ronak_agentk_runtime.Admission.Mounts.{
  compare_mounts, has_volume, check_mounts, validate_volume_mounts, validate_agent,
}
use ronak_agentk_runtime.Admission.Prefixes.{IsApart, compare_mounts_lem}
use ronak_agentk_runtime.Admission.Sources.{
  append-eq-nil, each-eq-nil, IsSource, by_ref, by_url, validate_source_lem,
}

module _ (clean : String → String) where
  -- Every mount names a volume, and is apart from the mounts behind it.
  abbrev pub AreMounts : List Volume → List VolumeMount → Type 0
  AreMounts volumes [] = Unit
  AreMounts volumes (m ∷ rest) =
      (has_volume volumes m.name ≡ true) × All (IsApart clean m) rest × AreMounts volumes rest

  when-eq-nil : (b : Bool) (e : FieldError) → (when (not b) e ≡ []) ↔ (b ≡ true)
  when-eq-nil true e = (λ h. refl, λ h. refl)
  when-eq-nil false e = (λ h. cc h, λ h. cc h)

  check_mounts_lem :
      (volumes : List Volume) (i : ℕ) (mounts : List VolumeMount)
      → (check_mounts clean volumes i mounts ≡ []) ↔ AreMounts volumes mounts
  unfolding check_mounts
  check_mounts_lem volumes i [] = (λ h. tt, λ h. refl)
  check_mounts_lem volumes i (m ∷ rest) =
      let first = append-eq-nil (when (not (has_volume volumes m.name)) _) _ in
      let second =
        append-eq-nil (each (compare_mounts clean m i) (suc i) rest)
          (check_mounts clean volumes (suc i) rest) in
      let named = when-eq-nil (has_volume volumes m.name) _ in
      let apart =
        each-eq-nil (compare_mounts clean m i) (IsApart clean m)
          (λ n j. compare_mounts_lem clean m n i j) (suc i) rest in
      let later = check_mounts_lem volumes (suc i) rest in
      (
        λ h. let (a, b) = first.0 h in let (c, d) = second.0 b in (named.0 a, apart.0 c, later.0 d),
        λ h. first.1 (named.1 h.0, second.1 (apart.1 h.1, later.1 h.2)),
      )

  -- A framework with a template, or an image.
  pub record IsBuildable (framework image : String) : Type 0 where
    pub buildable : (framework ≡ "") ⊎ (image ≢ "") ⊎ (is_template_framework framework ≡ true)

  module _ (parse : String → Option Url) where
    -- What an agent must be to be admitted.
    pub record IsAdmissible (a : Agent) : Type 0 where
      pub image : IsBuildable a.spec.framework a.spec.image
      pub sub_agents : All (λ (s : SubAgent). IsSource parse s.agent_ref s.url) a.spec.sub_agents
      pub tools : All (λ (t : AgentTool). IsSource parse t.tool_server_ref t.url) a.spec.tools
      pub mounts : AreMounts a.spec.volumes a.spec.volume_mounts

    framework_lem :
        (a : Agent) → (validate_framework a ≡ []) ↔ IsBuildable a.spec.framework a.spec.image
    unfolding validate_framework
    framework_lem a = (
      λ h. record {
        buildable = ground (arith, h, eq_iff a.spec.framework "", eq_iff a.spec.image "");
      },
      λ h. ground (arith, h.buildable, eq_iff a.spec.framework "", eq_iff a.spec.image ""),
    )

    -- The agent webhook reports no error exactly for the agents in which the framework is empty,
    -- has a template or comes with an image; every sub-agent and every tool has exactly one
    -- source, a reference with a name or an http or https URL with a host; every mount names a
    -- volume of the agent; and of any two mounts the later has an empty path, or their cleaned
    -- paths are equal, or neither cleaned path with a slash behind it begins, as a text, with the
    -- other with a slash behind it.
    pub validate_agent-admits_iff :
        (a : Agent) → (validate_agent clean parse a ≡ []) ↔ IsAdmissible a
    unfolding validate_agent validate_sub_agent validate_tool validate_volume_mounts
    validate_agent-admits_iff a =
        let subs =
          each-eq-nil (validate_sub_agent parse)
            (λ (s : SubAgent). IsSource parse s.agent_ref s.url)
            (λ s i. validate_source_lem parse "subAgents" "agentRef" "SubAgent" s.agent_ref s.url i)
            0 a.spec.sub_agents in
        let tools =
          each-eq-nil (validate_tool parse)
            (λ (t : AgentTool). IsSource parse t.tool_server_ref t.url)
            (λ t i.
              validate_source_lem parse "tools" "toolServerRef" "Tool" t.tool_server_ref t.url i)
            0 a.spec.tools in
        let mounts = check_mounts_lem a.spec.volumes 0 a.spec.volume_mounts in
        let frame = framework_lem a in
        let one = append-eq-nil (validate_framework a) _ in
        let two = append-eq-nil (each (validate_sub_agent parse) 0 a.spec.sub_agents) _ in
        let three =
          append-eq-nil (each (validate_tool parse) 0 a.spec.tools)
            (validate_volume_mounts clean a) in
        (
          λ h.
              let (x, h1) = one.0 h in
              let (y, h2) = two.0 h1 in
              let (z, w) = three.0 h2 in
              record {
                image = frame.0 x;
                sub_agents = subs.0 y;
                tools = tools.0 z;
                mounts = mounts.0 w;
              },
          λ h. one.1 (
            frame.1 h.image,
            two.1 (subs.1 h.sub_agents, three.1 (tools.1 h.tools, mounts.1 h.mounts)),
          ),
        )

-- The agent that a reference names is there and has a URL.
abbrev pub IsServed : Cluster → String → Option ObjectReference → Type 0
IsServed c ns none = Unit
IsServed c ns (some ref) =
    (a : Agent) × (c.get_agent (target ref ns) ≡ found a) × (a.status.url ≢ "")

module _ (clean : String → String) (parse : String → Option Url) (c : Cluster) where
  ref-resolves :
      (s : SubAgent) (ns : String) (r : ObjectReference) (a : Agent)
      → s.agent_ref ≡ some r
      → s.url ≡ ""
      → c.get_agent (target r ns) ≡ found a
      → a.status.url ≢ ""
      → is_ok (resolve_sub_agent_url c s ns) ≡ true
  unfolding resolve_sub_agent_url
  ref-resolves s ns r a e empty got full =
      rw (empty, e, got) (ground (arith, eq_iff a.status.url ""))

  source-resolves :
      (s : SubAgent) (ns : String)
      → IsSource parse s.agent_ref s.url
      → IsServed c ns s.agent_ref
      → is_ok (resolve_sub_agent_url c s ns) ≡ true
  unfolding resolve_sub_agent_url
  source-resolves s ns (by_url e full http) served = ground (arith, eq_iff s.url "")
  source-resolves s ns (by_ref r e named empty) served =
      let (a, got, full) = (rw e at served) in ref-resolves s ns r a e empty got full

  sources-resolve :
      (ns : String) (subs : List SubAgent)
      → All (λ (s : SubAgent). IsSource parse s.agent_ref s.url) subs
      → All (λ (s : SubAgent). IsServed c ns s.agent_ref) subs
      → Resolves c ns subs
  sources-resolve ns [] h k = tt
  sources-resolve ns (s ∷ rest) h k =
      (source-resolves s ns h.0 k.0, sources-resolve ns rest h.1 k.1)

  -- For an agent that the webhook admits, the controller resolves all sub-agents without an error
  -- as soon as every cluster agent that one of them refers to is found and has a URL in its
  -- status.
  pub validate_agent-resolves :
      (a : Agent)
      → validate_agent clean parse a ≡ []
      → All (λ (s : SubAgent). IsServed c a.namespace s.agent_ref) a.spec.sub_agents
      → (resolve_all_sub_agents c a).1 ≡ none
  validate_agent-resolves a h served = (resolve_all_sub_agents-ok_iff c a).1 (
      sources-resolve a.namespace a.spec.sub_agents
        ((validate_agent-admits_iff clean parse a).0 h).sub_agents served)
