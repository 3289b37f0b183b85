-- ===== src/Deploy/Sidecars.antt =====
-- After a round the sidecars that it wants are there, and where they are there it appends none.
use ronak_agentk_runtime.Base.{
  ℕ, true, false, Option, none, some, List, [], ◌∷◌, All, ◌≡◌, ◌⊎◌, refl, ap, inl, inr, Bool-cases,
  Option-cases, is_some,
}
use ronak_agentk_runtime.Kube.{Container}
use ronak_agentk_runtime.Api.Resources.{Policy, ToolSandbox}
use ronak_agentk_runtime.Deploy.Policies.{build_opa_sidecar, has_opa_rules}
use ronak_agentk_runtime.Deploy.Sandbox.{build_sidecar_container}
use ronak_agentk_runtime.Deploy.Containers.{Slice, find_container_by_name}
use ronak_agentk_runtime.Deploy.Ensure.{
  refresh_sandbox, inject_sandbox, inject_opa, inject_policies,
}
use ronak_agentk_runtime.Deploy.Found.{find-append_none, find-write_self, items-append}
use ronak_agentk_runtime.Deploy.Steps.{refresh_sandbox-name}

-- The sidecars that the inputs ask for are among the containers.
abbrev pub HasSandbox : Option ToolSandbox → List Container → Type 0
HasSandbox none cs = Unit
HasSandbox (some _) cs = is_some (find_container_by_name "wasm-sandbox" cs) ≡ true

abbrev pub HasOpa : List Policy → List Container → Type 0
HasOpa ps cs =
    All
      (λ (p : Policy).
        (has_opa_rules p ≡ false) ⊎ (is_some (find_container_by_name "opa-policy" cs) ≡ true))
      ps

module _ (new_room : ℕ → ℕ) where
  pub inject_sandbox-HasSandbox :
      (sandbox : Option ToolSandbox) (s : Slice)
      → HasSandbox sandbox (inject_sandbox new_room sandbox s).items
  unfolding inject_sandbox build_sidecar_container
  inject_sandbox-HasSandbox none s = tt
  inject_sandbox-HasSandbox (some sandbox) s =
      let built = build_sidecar_container sandbox in
      elim (Option-cases (find_container_by_name "wasm-sandbox" s.items)) [
        | inl e ↦
            rw (inject_sandbox, e)
              (rw (items-append new_room built s)
                (ap is_some (find-append_none "wasm-sandbox" s.items built e)))
        | inr (c, e) ↦
            rw (inject_sandbox, e)
              (rw
                (find-write_self "wasm-sandbox" (refresh_sandbox built) (refresh_sandbox-name built)
                  s.items)
                (rw e refl))
      ]

  -- With its sidecar there, a policy changes nothing.
  inject_opa_keeps_all :
      (p : Policy) (s : Slice)
      → (has_opa_rules p ≡ false) ⊎ (is_some (find_container_by_name "opa-policy" s.items) ≡ true)
      → inject_opa new_room p s ≡ s
  unfolding inject_opa build_opa_sidecar
  inject_opa_keeps_all p s (inl h) = rw h refl
  inject_opa_keeps_all p s (inr h) =
      elim (Option-cases (find_container_by_name "opa-policy" s.items)) [
        | inl e ↦ let bad : false ≡ true = (rw e at h) in cc
        | inr (c, e) ↦ elim (Bool-cases (has_opa_rules p)) [
          | inl t ↦ rw t (rw e refl)
          | inr t ↦ rw t refl
        ]
      ]

  pub inject_policies_keeps_all :
      (ps : List Policy) (s : Slice) → HasOpa ps s.items → inject_policies new_room ps s ≡ s
  unfolding inject_policies
  inject_policies_keeps_all [] s h = refl
  inject_policies_keeps_all (p ∷ ps) s (h, hs) =
      rw (inject_opa_keeps_all p s h) (inject_policies_keeps_all ps s hs)

  inject_opa-found :
      (p : Policy) (s : Slice)
      → (has_opa_rules p ≡ false)
        ⊎ (is_some (find_container_by_name "opa-policy" (inject_opa new_room p s).items) ≡ true)
  unfolding inject_opa build_opa_sidecar
  inject_opa-found p s = elim (Bool-cases (has_opa_rules p)) [
    | inr t ↦ inl t
    | inl t ↦ inr (
        rw t (elim (Option-cases (find_container_by_name "opa-policy" s.items)) [
          | inl e ↦ rw e (
              rw (items-append new_room (build_opa_sidecar p) s)
                (ap is_some (find-append_none "opa-policy" s.items (build_opa_sidecar p) e)))
          | inr (c, e) ↦ rw e (rw e refl)
        ]))
  ]

  -- Once it is there, the sidecar stays.
  inject_policies-stays :
      (ps : List Policy) (s : Slice)
      → is_some (find_container_by_name "opa-policy" s.items) ≡ true
      → inject_policies new_room ps s ≡ s
  unfolding inject_policies
  inject_policies-stays [] s h = refl
  inject_policies-stays (p ∷ ps) s h =
      rw (inject_opa_keeps_all p s (inr h)) (inject_policies-stays ps s h)

  pub inject_policies-HasOpa :
      (ps : List Policy) (s : Slice) → HasOpa ps (inject_policies new_room ps s).items
  unfolding inject_policies
  inject_policies-HasOpa [] s = tt
  inject_policies-HasOpa (p ∷ ps) s = (
    elim (inject_opa-found p s) [
      | inl h ↦ inl h
      | inr h ↦ inr (rw (inject_policies-stays ps (inject_opa new_room p s) h) h)
    ],
    inject_policies-HasOpa ps (inject_opa new_room p s),
  )
