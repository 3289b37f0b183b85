-- ===== src/Deploy/Served.antt =====
-- What ensureDeployment makes of the agent's container, and that the service reaches it.
use ronak_agentk_runtime.Base.{ℕ, String, false, some, List, ◌≡◌, refl, ap, ◌∙◌, ◌==◌}
use mathlib.Core.Option
use ronak_agentk_runtime.Kube.{Container}
use ronak_agentk_runtime.Api.Agent.{Agent}
use ronak_agentk_runtime.Deploy.Containers.{find_container_by_name}
use ronak_agentk_runtime.Deploy.Ensure.{
  Inputs, configure_container, configured_slice, injected_slice, ensure_containers,
}
use ronak_agentk_runtime.Deploy.Found.{find-write_self, find-write_ne}
use ronak_agentk_runtime.Deploy.Steps.{
  or_new, healed, with_agent_container-find, with_agent_container_keeps, inject_sandbox_keeps,
  inject_policies_keeps, self_heal_keeps, self_heal-find,
}

configure_container-name :
    (a : Agent) (i : Inputs) (c : Container) → (configure_container a i c).name ≡ c.name
unfolding configure_container
configure_container-name a i c = refl

module _ (new_room : ℕ → ℕ) (room : ℕ) (a : Agent) (i : Inputs) where
  pub configured_slice-find :
      (cs : List Container)
      → find_container_by_name "agent" (configured_slice new_room room a i cs).items
        ≡ some (configure_container a i (or_new (find_container_by_name "agent" cs)))
  unfolding configured_slice
  configured_slice-find cs =
      find-write_self "agent" (configure_container a i) (configure_container-name a i) _
      ∙ ap (Option.map (configure_container a i)) (with_agent_container-find new_room _)

  pub configured_slice_keeps :
      (n : String) (cs : List Container)
      → ("agent" == n) ≡ false
      → find_container_by_name n (configured_slice new_room room a i cs).items
        ≡ find_container_by_name n cs
  unfolding configured_slice
  configured_slice_keeps n cs h =
      find-write_ne "agent" (configure_container a i) (configure_container-name a i) n _ h
      ∙ with_agent_container_keeps new_room n _ h

  -- The agent's container is the one that was found, or a new one, configured and then healed.
  pub ensure_containers-find :
      (cs : List Container)
      → find_container_by_name "agent" (ensure_containers new_room room a i cs)
        ≡ some (
            healed a a.spec.lifecycle
              (injected_slice new_room room a i cs).live
              (configure_container a i (or_new (find_container_by_name "agent" cs))))
  unfolding ensure_containers injected_slice
  ensure_containers-find cs = self_heal-find a a.spec.lifecycle _ (
      inject_policies_keeps new_room "agent" i.policies _ refl
      ∙ (inject_sandbox_keeps new_room "agent" i.sandbox _ refl ∙ configured_slice-find cs))

  -- Ensuring a deployment's containers leaves alone what others have put there: under a name that
  -- is neither the agent's container's nor a sidecar's, the same container is found after it as
  -- before, whatever room the slices have.
  pub ensure_containers_keeps :
      (n : String) (cs : List Container)
      → ("agent" == n) ≡ false
      → ("wasm-sandbox" == n) ≡ false
      → ("opa-policy" == n) ≡ false
      → find_container_by_name n (ensure_containers new_room room a i cs)
        ≡ find_container_by_name n cs
  unfolding ensure_containers injected_slice
  ensure_containers_keeps n cs agent sandbox opa =
      self_heal_keeps n a a.spec.lifecycle _ agent
      ∙ (inject_policies_keeps new_room n i.policies _ opa
          ∙ (inject_sandbox_keeps new_room n i.sandbox _ sandbox
              ∙ configured_slice_keeps n cs agent))
