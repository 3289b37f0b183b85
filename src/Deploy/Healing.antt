-- ===== src/Deploy/Healing.antt =====
-- When the agent's container has the liveness probe of self-healing: ensureDeployment writes the
-- probe through a pointer that an append of a sidecar may have left behind.
use ronak_agentk_runtime.Base.{
  ℕ, Bool, true, false, Option, none, some, List, [], ◌∷◌, ◌≡◌, refl, ap, ◌∙◌, inl, inr, arith,
  Option-cases, is_some,
}
use ronak_agentk_runtime.Kube.{Container}
use ronak_agentk_runtime.Api.Agent.{Agent, LifecycleSpec}
use ronak_agentk_runtime.Api.Resources.{Policy, ToolSandbox}
use ronak_agentk_runtime.Lifecycle.{configure_self_healing}
use ronak_agentk_runtime.Deploy.Sandbox.{build_sidecar_container}
use ronak_agentk_runtime.Deploy.Containers.{Slice, find_container_by_name}
use ronak_agentk_runtime.Deploy.Ensure.{
  Inputs, with_agent_container, inject_sandbox, first_port, configured_slice, injected_slice,
  ensure_containers,
}
use ronak_agentk_runtime.Deploy.Steps.{
  healed, inject_sandbox_keeps, inject_policies_keeps, self_heal_keeps,
}
use ronak_agentk_runtime.Deploy.Served.{configured_slice_keeps, ensure_containers-find}
use ronak_agentk_runtime.Deploy.Sidecars.{
  HasSandbox, HasOpa, inject_sandbox-HasSandbox, inject_policies_keeps_all, inject_policies-HasOpa,
}

HasSandbox-eq :
    (sandbox : Option ToolSandbox) (xs ys : List Container)
    → find_container_by_name "wasm-sandbox" xs ≡ find_container_by_name "wasm-sandbox" ys
    → HasSandbox sandbox ys
    → HasSandbox sandbox xs
HasSandbox-eq none xs ys e h = tt
HasSandbox-eq (some _) xs ys e h = rw e h

HasOpa-eq :
    (ps : List Policy) (xs ys : List Container)
    → find_container_by_name "opa-policy" xs ≡ find_container_by_name "opa-policy" ys
    → HasOpa ps ys
    → HasOpa ps xs
HasOpa-eq [] xs ys e h = tt
HasOpa-eq (p ∷ ps) xs ys e (inl f, h) = (inl f, HasOpa-eq ps xs ys e h)
HasOpa-eq (p ∷ ps) xs ys e (inr f, h) = (inr (rw e f), HasOpa-eq ps xs ys e h)

abbrev pub is_probed : Option Container → Bool
is_probed none = false
is_probed (some c) = is_some c.liveness_probe

module _ (new_room : ℕ → ℕ) where
  with_agent_container-live : (s : Slice) → (with_agent_container new_room s).live ≡ true
  unfolding with_agent_container
  with_agent_container-live s = ground arith

  inject_sandbox-live :
      (sandbox : Option ToolSandbox) (s : Slice)
      → HasSandbox sandbox s.items
      → (inject_sandbox new_room sandbox s).live ≡ s.live
  unfolding inject_sandbox build_sidecar_container
  inject_sandbox-live none s h = refl
  inject_sandbox-live (some sandbox) s h =
      elim (Option-cases (find_container_by_name "wasm-sandbox" s.items)) [
        | inl e ↦ let bad : false ≡ true = (rw e at h) in cc
        | inr (c, e) ↦ rw (inject_sandbox, e) refl
      ]

module _ (new_room : ℕ → ℕ) (a : Agent) (i : Inputs) where
  ensure_containers-HasSandbox :
      (room : ℕ) (cs : List Container)
      → HasSandbox i.sandbox (ensure_containers new_room room a i cs)
  unfolding ensure_containers injected_slice
  ensure_containers-HasSandbox room cs =
      HasSandbox-eq i.sandbox _ _
        (self_heal_keeps "wasm-sandbox" a a.spec.lifecycle _ refl
          ∙ inject_policies_keeps new_room "wasm-sandbox" i.policies _ refl)
        (inject_sandbox-HasSandbox new_room i.sandbox (configured_slice new_room room a i cs))

  ensure_containers-HasOpa :
      (room : ℕ) (cs : List Container) → HasOpa i.policies (ensure_containers new_room room a i cs)
  unfolding ensure_containers injected_slice
  ensure_containers-HasOpa room cs =
      HasOpa-eq i.policies _ _ (self_heal_keeps "opa-policy" a a.spec.lifecycle _ refl)
        (inject_policies-HasOpa new_room i.policies _)

  configured_slice-live :
      (room : ℕ) (cs : List Container) → (configured_slice new_room room a i cs).live ≡ true
  unfolding configured_slice
  configured_slice-live room cs = with_agent_container-live new_room _

  -- Where nothing is appended, the pointer stays live.
  injected_slice-live :
      (room : ℕ) (cs : List Container)
      → HasSandbox i.sandbox cs
      → HasOpa i.policies cs
      → (injected_slice new_room room a i cs).live ≡ true
  unfolding injected_slice
  injected_slice-live room cs hs ho =
      let s = configured_slice new_room room a i cs in
      let hs' =
        HasSandbox-eq i.sandbox s.items cs
          (configured_slice_keeps new_room room a i "wasm-sandbox" cs refl) hs in
      let ho' =
        HasOpa-eq i.policies (inject_sandbox new_room i.sandbox s).items cs
          (inject_sandbox_keeps new_room "opa-policy" i.sandbox s refl
            ∙ configured_slice_keeps new_room room a i "opa-policy" cs refl)
          ho in
      ap (λ (t : Slice). t.live)
        (inject_policies_keeps_all new_room i.policies (inject_sandbox new_room i.sandbox s) ho')
      ∙ (inject_sandbox-live new_room i.sandbox s hs' ∙ configured_slice-live room cs)

configure_self_healing-probed :
    (c : Container) (port : ℕ) → is_some (configure_self_healing c port).liveness_probe ≡ true
unfolding configure_self_healing
configure_self_healing-probed c port = ground arith

healed-probed :
    (a : Agent) (o : Option LifecycleSpec) (c : Container) {l : LifecycleSpec} {port : ℕ}
    → o ≡ some l
    → l.self_healing ≡ true
    → first_port a.spec.protocols ≡ some port
    → is_probed (some (healed a o true c)) ≡ true
healed-probed a o c {l} {port} hl hh hp =
    rw hl (rw hh (rw hp (configure_self_healing-probed c port)))

-- If the lifecycle of an agent with a protocol asks for self-healing, then after two rounds over
-- the same inputs the agent's container has a liveness probe, whatever room the slices have in
-- either round.
pub ensure_containers-probed :
    (new_room : ℕ → ℕ) (room room' : ℕ) (a : Agent) (i : Inputs) (cs : List Container)
    {l : LifecycleSpec} {port : ℕ}
    → a.spec.lifecycle ≡ some l
    → l.self_healing ≡ true
    → first_port a.spec.protocols ≡ some port
    → is_probed (
        find_container_by_name "agent"
          (ensure_containers new_room room' a i (ensure_containers new_room room a i cs)))
      ≡ true
ensure_containers-probed new_room room room' a i cs hl hh hp =
    let cs' = ensure_containers new_room room a i cs in
    let live =
      injected_slice-live new_room a i room' cs' (ensure_containers-HasSandbox new_room a i room cs)
        (ensure_containers-HasOpa new_room a i room cs) in
    rw (ensure_containers-find new_room room' a i cs')
      (rw live (healed-probed a a.spec.lifecycle _ hl hh hp))
