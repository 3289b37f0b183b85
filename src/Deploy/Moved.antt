-- ===== src/Deploy/Moved.antt =====
-- A new deployment with a sandbox: the append of the sidecar moves the containers, and the liveness
-- probe is written to the old ones.
use ronak_agentk_runtime.Base.{
  ℕ, false, Option, none, some, List, [], ◌∷◌, ◌≡◌, refl, ◌∙◌, inl, inr, arith, Bool-cases,
  Option-cases,
}
use ronak_agentk_runtime.Kube.{Container}
use ronak_agentk_runtime.Api.Agent.{Agent, LifecycleSpec}
use ronak_agentk_runtime.Api.Resources.{Policy, ToolSandbox}
use ronak_agentk_runtime.Deploy.Policies.{build_opa_sidecar, has_opa_rules}
use ronak_agentk_runtime.Deploy.Sandbox.{build_sidecar_container}
use ronak_agentk_runtime.Deploy.Containers.{Slice, append, find_container_by_name}
use ronak_agentk_runtime.Deploy.Ensure.{
  Inputs, new_container, configure_container, with_agent_container, inject_sandbox, inject_opa,
  inject_policies, first_port, configured_slice, injected_slice, ensure_containers,
}
use ronak_agentk_runtime.Deploy.Steps.{probed, healed}
use ronak_agentk_runtime.Deploy.Served.{configured_slice_keeps, ensure_containers-find}
use ronak_agentk_runtime.Deploy.Healing.{is_probed}

-- A pointer that an append has left behind stays behind.
module _ (new_room : ℕ → ℕ) where
  append-dead : (c : Container) (s : Slice) → s.live ≡ false → (append new_room c s).live ≡ false
  unfolding append
  append-dead c s h = ground arith

  inject_opa-dead :
      (p : Policy) (s : Slice) → s.live ≡ false → (inject_opa new_room p s).live ≡ false
  unfolding inject_opa build_opa_sidecar
  inject_opa-dead p s h = elim (Bool-cases (has_opa_rules p)) [
    | inr t ↦ rw t h
    | inl t ↦ rw t (elim (Option-cases (find_container_by_name "opa-policy" s.items)) [
      | inl e ↦ rw e (append-dead (build_opa_sidecar p) s h)
      | inr (c, e) ↦ rw e h
    ])
  ]

  inject_policies-dead :
      (ps : List Policy) (s : Slice) → s.live ≡ false → (inject_policies new_room ps s).live ≡ false
  unfolding inject_policies
  inject_policies-dead [] s h = h
  inject_policies-dead (p ∷ ps) s h =
      inject_policies-dead ps (inject_opa new_room p s) (inject_opa-dead p s h)

  inject_sandbox-moves :
      (o : Option ToolSandbox) (s : Slice) {sandbox : ToolSandbox}
      → o ≡ some sandbox
      → find_container_by_name "wasm-sandbox" s.items ≡ none
      → s.room ≡ 0
      → (inject_sandbox new_room o s).live ≡ false
  unfolding inject_sandbox build_sidecar_container append
  inject_sandbox-moves o s ho hf hr = rw ho (rw (inject_sandbox, hf) (rw (append, hr) refl))

probed-dead : (port : Option ℕ) (c : Container) → probed port false c ≡ c
probed-dead none c = refl
probed-dead (some port) c = refl

healed-dead : (a : Agent) (o : Option LifecycleSpec) (c : Container) → healed a o false c ≡ c
healed-dead a none c = refl
healed-dead a (some l) c = elim (Bool-cases l.self_healing) [
  | inl t ↦ rw t (probed-dead (first_port a.spec.protocols) c)
  | inr t ↦ rw t refl
]

module _ (new_room : ℕ → ℕ) (a : Agent) (i : Inputs) where
  configured_slice-room : (configured_slice new_room 0 a i []).room ≡ new_room 1
  unfolding configured_slice with_agent_container append find_container_by_name
  configured_slice-room = refl

  injected_slice-dead :
      {sandbox : ToolSandbox}
      → i.sandbox ≡ some sandbox
      → new_room 1 ≡ 0
      → (injected_slice new_room 0 a i []).live ≡ false
  unfolding injected_slice find_container_by_name
  injected_slice-dead hs hr = inject_policies-dead new_room i.policies _ (
      inject_sandbox-moves new_room i.sandbox _ hs
        (configured_slice_keeps new_room 0 a i "wasm-sandbox" [] refl) (configured_slice-room ∙ hr))

-- For a new deployment and a sandbox that resolves, where the runtime gives an array of one
-- element no spare room, the agent's container has no liveness probe after the round, whatever its
-- lifecycle asks for.
pub ensure_containers-unprobed :
    (new_room : ℕ → ℕ) (a : Agent) (i : Inputs) {sandbox : ToolSandbox}
    → i.sandbox ≡ some sandbox
    → new_room 1 ≡ 0
    → is_probed (find_container_by_name "agent" (ensure_containers new_room 0 a i [])) ≡ false
unfolding configure_container find_container_by_name
ensure_containers-unprobed new_room a i hs hr = rw (ensure_containers-find new_room 0 a i []) (
    rw (injected_slice-dead new_room a i hs hr)
      (rw (healed-dead a a.spec.lifecycle (configure_container a i (new_container "agent"))) refl))
