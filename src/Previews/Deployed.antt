-- ===== src/Previews/Deployed.antt =====
-- How many containers the agent controller gives a new deployment.
use ronak_agentk_runtime.Base.{
  ℕ, suc, ◌+◌, ◌≤◌, String, true, Option, none, some, List, [], ◌∷◌, ◌≡◌, refl, ◌∙◌, ap, ◌⊎◌, inl,
  inr, Bool-cases, Option-cases, arith, length, length-append, any, ◌==◌,
}
use ronak_agentk_runtime.Kube.{Container}
use ronak_agentk_runtime.Api.Agent.{Agent, LifecycleSpec}
use ronak_agentk_runtime.Api.Resources.{Policy, ToolSandbox}
use ronak_agentk_runtime.Deploy.Policies.{
  build_opa_sidecar, has_opa_rules, has_ebpf_rules, build_ebpf_init_container,
}
use ronak_agentk_runtime.Deploy.Sandbox.{build_sidecar_container}
use ronak_agentk_runtime.Deploy.Containers.{Slice, append, find_container_by_name, write_container}
use ronak_agentk_runtime.Deploy.Ensure.{
  Inputs, refresh_sandbox, with_agent_container, inject_sandbox, inject_opa, inject_policies,
  inject_init_containers, is_named, first_port, heal, self_heal, configured_slice, injected_slice,
  ensure_containers,
}
use ronak_agentk_runtime.Deploy.Found.{find-append_none, items-append}

-- One for a list that is not empty.
abbrev pub one_if_any {ℓ} : {A : Type ℓ} → List A → ℕ
one_if_any [] = 0
one_if_any (_ ∷ _) = 1

abbrev pub one_if_some {ℓ} : {A : Type ℓ} → Option A → ℕ
one_if_some none = 0
one_if_some (some _) = 1

pub one_if_any-le {ℓ} : {A : Type ℓ} (xs : List A) → one_if_any xs ≤ 1
one_if_any-le [] = omega arith
one_if_any-le (_ ∷ _) = omega arith

length-write_container :
    (name : String) (change : Container → Container) (cs : List Container)
    → length (write_container name change cs) ≡ length cs
unfolding write_container
length-write_container name change [] = refl
length-write_container name change (c ∷ rest) = elim (Bool-cases (c.name == name)) [
  | inl t ↦ rw t refl
  | inr t ↦ rw t (ap suc (length-write_container name change rest))
]

module _ (new_room : ℕ → ℕ) where
  length-appended :
      (c : Container) (s : Slice) → length (append new_room c s).items ≡ suc (length s.items)
  length-appended c s =
      rw (items-append new_room c s) (length-append s.items (c ∷ []) ∙ omega arith)

  length-inject_sandbox :
      (sandbox : Option ToolSandbox) (s : Slice)
      → length (inject_sandbox new_room sandbox s).items ≤ length s.items + one_if_some sandbox
  unfolding inject_sandbox
  length-inject_sandbox none s = omega arith
  length-inject_sandbox (some sandbox) s =
      let built = build_sidecar_container sandbox in
      elim (Option-cases (find_container_by_name built.name s.items)) [
        | inl e ↦ rw (inject_sandbox, e) (let n = length-appended built s in omega arith)
        | inr (c, e) ↦
            rw (inject_sandbox, e)
              (let n = length-write_container built.name (refresh_sandbox built) s.items in
                omega arith)
      ]

  -- A policy adds no sidecar, or the first one.
  inject_opa-cases :
      (p : Policy) (s : Slice)
      → (inject_opa new_room p s ≡ s)
        ⊎ ((find_container_by_name "opa-policy" s.items ≡ none)
            × (inject_opa new_room p s ≡ append new_room (build_opa_sidecar p) s))
  unfolding inject_opa build_opa_sidecar
  inject_opa-cases p s = elim (Bool-cases (has_opa_rules p)) [
    | inr t ↦ inl (rw t refl)
    | inl t ↦ elim (Option-cases (find_container_by_name "opa-policy" s.items)) [
      | inl e ↦ inr (e, rw t (rw e refl))
      | inr (c, e) ↦ inl (rw t (rw e refl))
    ]
  ]

  inject_opa_stays :
      (p : Policy) (s : Slice) (c : Container)
      → find_container_by_name "opa-policy" s.items ≡ some c
      → inject_opa new_room p s ≡ s
  inject_opa_stays p s c e = elim (inject_opa-cases p s) [
    | inl same ↦ same
    | inr (n, _) ↦ absurd (cc)
  ]

  -- Once there is an OPA sidecar, no further one is added.
  inject_policies_stays :
      (policies : List Policy) (s : Slice) (c : Container)
      → find_container_by_name "opa-policy" s.items ≡ some c
      → inject_policies new_room policies s ≡ s
  unfolding inject_policies
  inject_policies_stays [] s c e = refl
  inject_policies_stays (p ∷ rest) s c e =
      rw (inject_opa_stays p s c e) (inject_policies_stays rest s c e)

  found-appended :
      (p : Policy) (s : Slice)
      → find_container_by_name "opa-policy" s.items ≡ none
      → find_container_by_name "opa-policy" (append new_room (build_opa_sidecar p) s).items
        ≡ some (build_opa_sidecar p)
  unfolding build_opa_sidecar
  found-appended p s e =
      rw (items-append new_room (build_opa_sidecar p) s)
        (find-append_none "opa-policy" s.items (build_opa_sidecar p) e)

  length-inject_policies :
      (policies : List Policy) (s : Slice)
      → length (inject_policies new_room policies s).items ≤ length s.items + one_if_any policies
  unfolding inject_policies
  length-inject_policies [] s = omega arith
  length-inject_policies (p ∷ rest) s =
      let after : Slice → ℕ = λ x. length (inject_policies new_room rest x).items in
      elim (inject_opa-cases p s) [
        | inl same ↦
            let now : length (inject_policies new_room (p ∷ rest) s).items ≡ after s =
              ap after same in
            let later : after s ≤ length s.items + one_if_any rest =
              length-inject_policies rest s in
            let most = one_if_any-le rest in omega arith
        | inr (e, added) ↦
            let behind = append new_room (build_opa_sidecar p) s in
            let stays =
              inject_policies_stays rest behind (build_opa_sidecar p) (found-appended p s e) in
            let now : length (inject_policies new_room (p ∷ rest) s).items ≡ length behind.items =
              ap after added ∙ ap (λ (x : Slice). length x.items) stays in
            let more : length behind.items ≡ suc (length s.items) =
              length-appended (build_opa_sidecar p) s in
            omega arith
      ]

length-heal : (port : Option ℕ) (s : Slice) → length (heal port s) ≡ length s.items
length-heal none s = refl
length-heal (some port) s = elim (Bool-cases s.live) [
  | inl t ↦ rw t (length-write_container "agent" _ s.items)
  | inr t ↦ rw t refl
]

length-self_heal :
    (a : Agent) (l : Option LifecycleSpec) (s : Slice) → length (self_heal a l s) ≡ length s.items
unfolding self_heal
length-self_heal a none s = refl
length-self_heal a (some l) s = elim (Bool-cases l.self_healing) [
  | inl t ↦ rw t (length-heal (first_port a.spec.protocols) s)
  | inr t ↦ rw t refl
]

length-configured_slice :
    (new_room : ℕ → ℕ) (a : Agent) (i : Inputs)
    → length (configured_slice new_room 0 a i []).items ≡ 1
unfolding configured_slice with_agent_container append find_container_by_name write_container
length-configured_slice new_room a i = refl

-- The containers of a new deployment: the agent's, and at most one sidecar of each kind.
pub length-ensure_containers :
    (new_room : ℕ → ℕ) (a : Agent) (i : Inputs)
    → length (ensure_containers new_room 0 a i [])
      ≤ 1 + one_if_some i.sandbox + one_if_any i.policies
unfolding ensure_containers injected_slice
length-ensure_containers new_room a i =
    let first = configured_slice new_room 0 a i [] in
    let boxed = inject_sandbox new_room i.sandbox first in
    let filled = inject_policies new_room i.policies boxed in
    let healed : length (ensure_containers new_room 0 a i []) ≡ length filled.items =
      length-self_heal a a.spec.lifecycle filled in
    let policies : length filled.items ≤ length boxed.items + one_if_any i.policies =
      length-inject_policies new_room i.policies boxed in
    let sandbox : length boxed.items ≤ length first.items + one_if_some i.sandbox =
      length-inject_sandbox new_room i.sandbox first in
    let one : length first.items ≡ 1 = length-configured_slice new_room a i in omega arith

-- The same for the init containers, all of which have one name.
module _ (marshal : List String → String) where
  inject_init_containers_stays :
      (policies : List Policy) (cs : List Container)
      → any (is_named "ebpf-probe") cs ≡ true
      → inject_init_containers marshal policies cs ≡ cs
  unfolding inject_init_containers build_ebpf_init_container
  inject_init_containers_stays [] cs e = refl
  inject_init_containers_stays (p ∷ rest) cs e = elim (Bool-cases (has_ebpf_rules p)) [
    | inl t ↦ rw t (rw e (inject_init_containers_stays rest cs e))
    | inr t ↦ rw t (inject_init_containers_stays rest cs e)
  ]

  pub length-inject_init_containers :
      (policies : List Policy)
      → length (inject_init_containers marshal policies []) ≤ one_if_any policies
  unfolding inject_init_containers build_ebpf_init_container
  length-inject_init_containers [] = omega arith
  length-inject_init_containers (p ∷ rest) = elim (Bool-cases (has_ebpf_rules p)) [
    | inl t ↦
        let built = build_ebpf_init_container marshal p in
        rw t (rw (inject_init_containers_stays rest (built ∷ []) refl) (omega arith))
    | inr t ↦ rw t (
        let later = length-inject_init_containers rest in
        let most = one_if_any-le rest in omega arith)
  ]
