-- ===== src/Deploy/Steps.antt =====
-- What each step of ensure_containers leaves of the containers that it does not make.
use ronak_agentk_runtime.Base.{
  ℕ, String, Bool, false, Option, none, some, List, [], ◌∷◌, ◌≡◌, refl, ◌∙◌, inl, inr, Bool-cases,
  Option-cases, arith, if◌then◌else◌, ◌==◌,
}
use ronak_agentk_runtime.Kube.{Container}
use ronak_agentk_runtime.Api.Agent.{Agent, LifecycleSpec}
use ronak_agentk_runtime.Api.Resources.{Policy, ToolSandbox}
use ronak_agentk_runtime.Lifecycle.{configure_self_healing}
use ronak_agentk_runtime.Deploy.Policies.{build_opa_sidecar, has_opa_rules}
use ronak_agentk_runtime.Deploy.Sandbox.{build_sidecar_container}
use ronak_agentk_runtime.Deploy.Containers.{Slice, find_container_by_name}
use ronak_agentk_runtime.Deploy.Ensure.{
  agent_container_name, new_container, refresh_sandbox, with_agent_container, inject_sandbox,
  inject_opa, inject_policies, first_port, heal, self_heal,
}
use ronak_agentk_runtime.Deploy.Found.{
  find-append_none, find-append_ne, find-write_self, find-write_ne, items-append,
}

-- The agent's container before it is configured.
abbrev pub or_new : Option Container → Container
or_new none = new_container agent_container_name
or_new (some c) = c

pub configure_self_healing-name :
    (port : ℕ) (c : Container) → (configure_self_healing c port).name ≡ c.name
unfolding configure_self_healing
configure_self_healing-name port c = ground arith

pub refresh_sandbox-name : (built c : Container) → (refresh_sandbox built c).name ≡ c.name
unfolding refresh_sandbox
refresh_sandbox-name built c = refl

module _ (new_room : ℕ → ℕ) where
  pub with_agent_container-find :
      (s : Slice)
      → find_container_by_name "agent" (with_agent_container new_room s).items
        ≡ some (or_new (find_container_by_name "agent" s.items))
  unfolding with_agent_container
  with_agent_container-find s = elim (Option-cases (find_container_by_name "agent" s.items)) [
    | inl e ↦
        rw (with_agent_container, e)
          (rw (items-append new_room (new_container "agent") s)
            (find-append_none "agent" s.items (new_container "agent") e))
    | inr (c, e) ↦ rw (with_agent_container, e) e
  ]

  pub with_agent_container_keeps :
      (n : String) (s : Slice)
      → ("agent" == n) ≡ false
      → find_container_by_name n (with_agent_container new_room s).items
        ≡ find_container_by_name n s.items
  unfolding with_agent_container
  with_agent_container_keeps n s h = elim (Option-cases (find_container_by_name "agent" s.items)) [
    | inl e ↦
        rw (with_agent_container, e)
          (rw (items-append new_room (new_container "agent") s)
            (find-append_ne n s.items (new_container "agent") h))
    | inr (c, e) ↦ rw (with_agent_container, e) refl
  ]

  pub inject_sandbox_keeps :
      (n : String) (sandbox : Option ToolSandbox) (s : Slice)
      → ("wasm-sandbox" == n) ≡ false
      → find_container_by_name n (inject_sandbox new_room sandbox s).items
        ≡ find_container_by_name n s.items
  unfolding inject_sandbox build_sidecar_container
  inject_sandbox_keeps n none s h = refl
  inject_sandbox_keeps n (some sandbox) s h =
      let built = build_sidecar_container sandbox in
      elim (Option-cases (find_container_by_name "wasm-sandbox" s.items)) [
        | inl e ↦
            rw (inject_sandbox, e)
              (rw (items-append new_room built s) (find-append_ne n s.items built h))
        | inr (c, e) ↦
            rw (inject_sandbox, e)
              (find-write_ne "wasm-sandbox" (refresh_sandbox built) (refresh_sandbox-name built) n
                s.items h)
      ]

  pub inject_opa_keeps :
      (n : String) (p : Policy) (s : Slice)
      → ("opa-policy" == n) ≡ false
      → find_container_by_name n (inject_opa new_room p s).items ≡ find_container_by_name n s.items
  unfolding inject_opa build_opa_sidecar
  inject_opa_keeps n p s h = elim (Bool-cases (has_opa_rules p)) [
    | inr t ↦ rw t refl
    | inl t ↦ rw t (elim (Option-cases (find_container_by_name "opa-policy" s.items)) [
      | inl e ↦ rw e (
          rw (items-append new_room (build_opa_sidecar p) s)
            (find-append_ne n s.items (build_opa_sidecar p) h))
      | inr (c, e) ↦ rw e refl
    ])
  ]

  pub inject_policies_keeps :
      (n : String) (policies : List Policy) (s : Slice)
      → ("opa-policy" == n) ≡ false
      → find_container_by_name n (inject_policies new_room policies s).items
        ≡ find_container_by_name n s.items
  unfolding inject_policies
  inject_policies_keeps n [] s h = refl
  inject_policies_keeps n (p ∷ rest) s h =
      inject_policies_keeps n rest (inject_opa new_room p s) h ∙ inject_opa_keeps n p s h

heal_keeps :
    (n : String) (port : Option ℕ) (s : Slice)
    → ("agent" == n) ≡ false
    → find_container_by_name n (heal port s) ≡ find_container_by_name n s.items
heal_keeps n none s h = refl
heal_keeps n (some port) s h = elim (Bool-cases s.live) [
  | inl t ↦ rw t (
      find-write_ne "agent" (λ c. configure_self_healing c port) (configure_self_healing-name port)
        n s.items h)
  | inr t ↦ rw t refl
]

pub self_heal_keeps :
    (n : String) (a : Agent) (l : Option LifecycleSpec) (s : Slice)
    → ("agent" == n) ≡ false
    → find_container_by_name n (self_heal a l s) ≡ find_container_by_name n s.items
unfolding self_heal
self_heal_keeps n a none s h = refl
self_heal_keeps n a (some l) s h = elim (Bool-cases l.self_healing) [
  | inl t ↦ rw t (heal_keeps n (first_port a.spec.protocols) s h)
  | inr t ↦ rw t refl
]

-- What self-healing makes of the agent's container, by whether the pointer to it is live.
abbrev pub probed : Option ℕ → Bool → Container → Container
probed none live c = c
probed (some port) live c = if live then configure_self_healing c port else c

abbrev pub healed : Agent → Option LifecycleSpec → Bool → Container → Container
healed a none live c = c
healed a (some l) live c = if l.self_healing then probed (first_port a.spec.protocols) live c else c

heal-find :
    (port : Option ℕ) (s : Slice) {c : Container}
    → find_container_by_name "agent" s.items ≡ some c
    → find_container_by_name "agent" (heal port s) ≡ some (probed port s.live c)
heal-find none s h = h
heal-find (some port) s h = elim (Bool-cases s.live) [
  | inl t ↦ rw t (
      find-write_self "agent" (λ c. configure_self_healing c port)
        (configure_self_healing-name port) s.items
      ∙ rw h refl)
  | inr t ↦ rw t h
]

pub self_heal-find :
    (a : Agent) (l : Option LifecycleSpec) (s : Slice) {c : Container}
    → find_container_by_name "agent" s.items ≡ some c
    → find_container_by_name "agent" (self_heal a l s) ≡ some (healed a l s.live c)
unfolding self_heal
self_heal-find a none s h = h
self_heal-find a (some l) s h = elim (Bool-cases l.self_healing) [
  | inl t ↦ rw t (heal-find (first_port a.spec.protocols) s h)
  | inr t ↦ rw t h
]
