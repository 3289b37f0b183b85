-- ===== src/Admission/Defaults.antt =====
-- What the webhooks' defaults leave, and the names of ports.
use ronak_agentk_runtime.Base.{
  ℕ, String, true, false, Option, none, some, List, [], ◌∷◌, All, ◌≡◌, ◌≢◌, ◌⊎◌, inl, inr, refl,
  arith, eq_iff, Bool-cases, eqb, ◌==◌, ◌↔◌, not, ◌&&◌, is_some,
}
use ronak_agentk_runtime.Api.Agent.{Agent, AgentProtocol}
use ronak_agentk_runtime.Api.Resources.{SwarmSpec, SwarmAgent}
use ronak_agentk_runtime.Admission.Errors.{FieldError, when, each}
use ronak_agentk_runtime.Admission.Sources.{append-eq-nil, each-eq-nil}
use ronak_agentk_runtime.Admission.Agents.{
  default_port_of, default_protocol, default_protocols, some_protocol, or_default, apply_defaults,
  is_port_char, hyphenate, trim_left, trim_right, trim_step, or_port, sanitize_for_port_name,
}
use ronak_agentk_runtime.Admission.Swarms.{has_leader, validate_swarm_agent, validate_swarm}

module _ (port_name : String → String) (replicas port : ℕ) where
  ports :
      port ≢ 0
      → (ps : List AgentProtocol)
      → All (λ (p : AgentProtocol). p.port ≢ 0) (default_protocols port_name replicas port ps)
  unfolding default_protocols default_protocol default_port_of
  ports h [] = tt
  ports h (p ∷ ps) = (λ e. ground (arith, h), ports h ps)

  -- With a default port that is not 0, a defaulted agent has a number of replicas and at least one
  -- protocol, and every protocol has a port that is not 0.
  pub record IsDefaulted (a : Agent) : Type 0 where
    pub scaled : a.spec.replicas ≢ none
    pub reachable : a.spec.protocols ≢ []
    pub ported : All (λ (p : AgentProtocol). p.port ≢ 0) a.spec.protocols

  -- If the webhook's default port is not 0, an agent has a number of replicas and at least one
  -- protocol after the defaults, and every protocol has a port that is not 0.
  pub apply_defaults-IsDefaulted :
      port ≢ 0 → (a : Agent) → IsDefaulted (apply_defaults port_name replicas port a)
  unfolding apply_defaults default_protocols
  apply_defaults-IsDefaulted h a = record {
    scaled = some_replicas a.spec.replicas;
    reachable = some_protocols a.spec.protocols;
    ported = ports h (some_protocol port_name replicas port a.spec.protocols);
  }
    where
      some_replicas : (o : Option ℕ) → or_default port_name replicas port o replicas ≢ none
      some_replicas none e = cc e
      some_replicas (some n) e = cc e

      some_protocols :
          (ps : List AgentProtocol)
          → default_protocols port_name replicas port (some_protocol port_name replicas port ps)
            ≢ []
      some_protocols [] e = cc e
      some_protocols (p ∷ ps) e = cc e

-- A sanitised port name.
abbrev StartsWell : List ℕ → Type 0
StartsWell [] = Unit
StartsWell (c ∷ cs) = c ≢ 45

abbrev EndsWell : List ℕ → Type 0
EndsWell [] = Unit
EndsWell (c ∷ []) = c ≢ 45
EndsWell (c ∷ d ∷ ds) = EndsWell (d ∷ ds)

abbrev Chars : List ℕ → Type 0
Chars = All (λ c. is_port_char c ≡ true)

-- Letters, digits and hyphens, at least one, and no hyphen at either end.
pub record IsPortName (s : List ℕ) : Type 0 where
  pub full : s ≢ []
  pub chars : Chars s
  pub starts : StartsWell s
  pub ends : EndsWell s

hyphenate-Chars : (s : List ℕ) → Chars (hyphenate s)
unfolding hyphenate
hyphenate-Chars [] = tt
hyphenate-Chars (c ∷ cs) = elim (Bool-cases (is_port_char c)) [
  | inl yes' ↦ rw yes' (yes', hyphenate-Chars cs)
  | inr no' ↦ rw no' (refl, hyphenate-Chars cs)
]

trim_left-fine : (s : List ℕ) → Chars s → Chars (trim_left s) × StartsWell (trim_left s)
unfolding trim_left
trim_left-fine [] h = (tt, tt)
trim_left-fine (c ∷ cs) h = elim (Bool-cases (eqb c 45)) [
  | inl hyphen ↦ rw hyphen (trim_left-fine cs h.1)
  | inr other ↦ rw other (h, λ e. ground arith)
]

trim_step-fine :
    (c : ℕ) (s : List ℕ)
    → is_port_char c ≡ true
    → Chars s × EndsWell s
    → Chars (trim_step c s) × EndsWell (trim_step c s)
trim_step-fine c [] h k = elim (Bool-cases (eqb c 45)) [
  | inl hyphen ↦ rw hyphen (tt, tt)
  | inr other ↦ rw other ((h, tt), λ e. ground arith)
]
trim_step-fine c (d ∷ ds) h k = ((h, k.0), k.1)

trim_right-fine : (s : List ℕ) → Chars s → Chars (trim_right s) × EndsWell (trim_right s)
unfolding trim_right
trim_right-fine [] h = (tt, tt)
trim_right-fine (c ∷ cs) h = trim_step-fine c (trim_right cs) h.0 (trim_right-fine cs h.1)

trim_step-StartsWell : (c : ℕ) (s : List ℕ) → c ≢ 45 → StartsWell (trim_step c s)
trim_step-StartsWell c [] h = rw (not_hyphen c h) h
  where
    not_hyphen : (c : ℕ) → c ≢ 45 → eqb c 45 ≡ false
    not_hyphen c h = ground (arith, h)
trim_step-StartsWell c (d ∷ ds) h = h

trim_right-StartsWell : (s : List ℕ) → StartsWell s → StartsWell (trim_right s)
unfolding trim_right
trim_right-StartsWell [] h = tt
trim_right-StartsWell (c ∷ cs) h = trim_step-StartsWell c (trim_right cs) h

or_port-IsPortName : (s : List ℕ) → Chars s → StartsWell s → EndsWell s → IsPortName (or_port s)
or_port-IsPortName [] a b c = record {
  full = λ e. cc e;
  chars = (refl, (refl, (refl, (refl, tt))));
  starts = λ e. omega arith;
  ends = λ e. omega arith;
}
or_port-IsPortName (x ∷ xs) a b c = record { full = λ e. cc e; chars = a; starts = b; ends = c }

-- Whatever text a port name is made of, given by its code points in lower case, the result is not
-- empty, holds only lower-case letters, digits and hyphens, and neither starts nor ends with a
-- hyphen.
pub sanitize_for_port_name-IsPortName : (s : List ℕ) → IsPortName (sanitize_for_port_name s)
unfolding sanitize_for_port_name
sanitize_for_port_name-IsPortName s =
    let left = trim_left-fine (hyphenate s) (hyphenate-Chars s) in
    let right = trim_right-fine (trim_left (hyphenate s)) left.0 in
    or_port-IsPortName (trim_right (trim_left (hyphenate s))) right.0
      (trim_right-StartsWell (trim_left (hyphenate s)) left.1) right.1

-- One source: a reference or a URL, and not both.
abbrev pub HasOneSource : SwarmAgent → Type 0
HasOneSource a =
    ((is_some a.agent_ref ≡ true) × (a.url ≡ "")) ⊎ ((is_some a.agent_ref ≡ false) × (a.url ≢ ""))

one_source_lem : (a : SwarmAgent) (i : ℕ) → (validate_swarm_agent a i ≡ []) ↔ HasOneSource a
unfolding validate_swarm_agent
one_source_lem a i = (λ h. ground (arith, eq_iff a.url ""), λ h. ground (arith, eq_iff a.url ""))

leader_lem :
    (s : SwarmSpec) (e : FieldError)
    → (when (s.strategy == "leader-follower" && not (has_leader s.agents)) e ≡ [])
      ↔ (s.strategy ≡ "leader-follower" → has_leader s.agents ≡ true)
leader_lem s e = elim (Bool-cases (s.strategy == "leader-follower")) [
  | inl yes' ↦ elim (Bool-cases (has_leader s.agents)) [
    | inl l ↦ rw (yes', l) (λ h. λ x. refl, λ h. refl)
    | inr l ↦ rw (yes', l) (λ h. cc h, λ h. cc (h ((eq_iff s.strategy "leader-follower").0 yes')))
  ]
  | inr no' ↦ rw no' (λ h. λ x. cc ((eq_iff s.strategy "leader-follower").1 x, no'), λ h. refl)
]

-- The swarm webhook reports no error exactly when every agent of the swarm has a reference or a
-- URL and not both, and, where the strategy is leader-follower, some agent has the role leader.
pub validate_swarm-admits_iff :
    (s : SwarmSpec)
    → ((validate_swarm s).0 ≡ [])
      ↔ (All HasOneSource s.agents × (s.strategy ≡ "leader-follower" → has_leader s.agents ≡ true))
unfolding validate_swarm
validate_swarm-admits_iff s =
    let agents = each-eq-nil validate_swarm_agent HasOneSource one_source_lem 0 s.agents in
    let both = append-eq-nil (each validate_swarm_agent 0 s.agents) _ in
    let leader = leader_lem s _ in
    (
      λ h. let (x, y) = both.0 h in (agents.0 x, leader.0 y),
      λ h. both.1 (agents.1 h.0, leader.1 h.1),
    )
