-- ===== src/Previews/Counted.antt =====
-- How many containers a preview counts, against those that the agent controller makes.
use ronak_agentk_runtime.Base.{
  ℕ, suc, ◌+◌, ◌-◌, ◌*◌, ◌≤◌, String, Option, none, some, List, [], ◌∷◌, ◌≡◌, refl, ap, arith,
  length, length-append,
}
use ronak_agentk_runtime.Kube.{EnvVar, ObjectReference}
use ronak_agentk_runtime.Api.Agent.{Agent}
use ronak_agentk_runtime.Refs.Cluster.{Cluster}
use ronak_agentk_runtime.Reconcile.Config.{AgentRuntimeConfiguration}
use ronak_agentk_runtime.Deploy.Ensure.{AgentDeployment, Inputs, configure_deployment}
use ronak_agentk_runtime.Deploy.Apply.{
  Runtime, resolved_policies, resolve_tool_sandbox, or_nothing, inputs_of, new_deployment,
}
use ronak_agentk_runtime.Previews.Build.{
  PreviewDeployment, build_preview_deployment, sandbox_containers, policy_containers,
  probe_containers,
}
use ronak_agentk_runtime.Previews.Deployed.{
  one_if_any, one_if_some, one_if_any-le, length-ensure_containers, length-inject_init_containers,
}

any-resolved_policies :
    (c : Cluster) (a : Agent) (refs : List ObjectReference)
    → one_if_any (resolved_policies c a refs) ≤ one_if_any refs
unfolding resolved_policies
any-resolved_policies c a [] = omega arith
any-resolved_policies c a (r ∷ rest) = one_if_any-le (resolved_policies c a (r ∷ rest))

one_if_some-le {ℓ} : {A : Type ℓ} (o : Option A) → one_if_some o ≤ 1
one_if_some-le none = omega arith
one_if_some-le (some _) = omega arith

some-resolve_tool_sandbox :
    (c : Cluster) (a : Agent) (ref : Option ObjectReference)
    → one_if_some (or_nothing (resolve_tool_sandbox c a ref)) ≤ one_if_some ref
unfolding resolve_tool_sandbox
some-resolve_tool_sandbox c a none = omega arith
some-resolve_tool_sandbox c a (some ref) =
    one_if_some-le (or_nothing (resolve_tool_sandbox c a (some ref)))

length-policy_containers :
    (refs : List ObjectReference) → length (policy_containers refs) ≡ length refs
unfolding policy_containers
length-policy_containers [] = refl
length-policy_containers (_ ∷ rest) = ap suc (length-policy_containers rest)

length-probe_containers :
    (refs : List ObjectReference) → length (probe_containers refs) ≡ length refs
unfolding probe_containers
length-probe_containers [] = refl
length-probe_containers (_ ∷ rest) = ap suc (length-probe_containers rest)

length-sandbox_containers :
    (ref : Option ObjectReference) → length (sandbox_containers ref) ≡ one_if_some ref
unfolding sandbox_containers
length-sandbox_containers none = refl
length-sandbox_containers (some _) = refl

any-length {ℓ} : {A : Type ℓ} (xs : List A) → one_if_any xs + (length xs - 1) ≡ length xs
any-length [] = omega arith
any-length (_ ∷ xs) = omega arith

abbrev pub deployed_containers : AgentDeployment → ℕ
deployed_containers d = length d.containers + length d.init_containers

abbrev pub previewed_containers : PreviewDeployment → ℕ
previewed_containers p = length p.containers + length p.init_containers

previewed_containers-build :
    (a : Agent)
    → previewed_containers (build_preview_deployment a).0
      ≡ 1 + one_if_some a.spec.tool_sandbox_ref + 2 * length a.spec.policy_refs
unfolding build_preview_deployment
previewed_containers-build a =
    let sandbox = length-sandbox_containers a.spec.tool_sandbox_ref in
    let policies = length-policy_containers a.spec.policy_refs in
    let probes = length-probe_containers a.spec.policy_refs in
    let both =
      length-append (sandbox_containers a.spec.tool_sandbox_ref)
        (policy_containers a.spec.policy_refs) in
    omega arith

at_most : {m n : ℕ} (s p : ℕ) → m ≤ 1 + s + p → n ≤ p → m + n ≤ 1 + s + 2 * p
at_most s p h k = omega arith

deployed_containers-new :
    (marshal : List String → String) (new_room : ℕ → ℕ) (a : Agent) (i : Inputs)
    → deployed_containers (configure_deployment marshal new_room 0 a i new_deployment)
      ≤ 1 + one_if_some i.sandbox + 2 * one_if_any i.policies
unfolding configure_deployment
deployed_containers-new marshal new_room a i =
    let d = configure_deployment marshal new_room 0 a i new_deployment in
    let containers : length d.containers ≤ 1 + one_if_some i.sandbox + one_if_any i.policies =
      length-ensure_containers new_room a i in
    let inits : length d.init_containers ≤ one_if_any i.policies =
      length-inject_init_containers marshal i.policies in
    at_most (one_if_some i.sandbox) (one_if_any i.policies) containers inits

-- A preview never counts fewer containers than the deployment has that the agent controller makes
-- for a new agent, init containers included, and it counts at least two too many for every policy
-- after the first: the controller adds one sidecar and one probe however many policies there are.
pub build_preview_deployment-covers :
    (r : Runtime) (c : Cluster) (config : Option AgentRuntimeConfiguration) (a : Agent)
    (env : List EnvVar)
    → deployed_containers (
          configure_deployment r.marshal_programs r.new_room 0 a
            (inputs_of r c config a env)
            new_deployment)
        + 2 * (length a.spec.policy_refs - 1)
      ≤ previewed_containers (build_preview_deployment a).0
build_preview_deployment-covers r c config a env =
    let i = inputs_of r c config a env in
    let made = deployed_containers-new r.marshal_programs r.new_room a i in
    let sandbox : one_if_some i.sandbox ≤ one_if_some a.spec.tool_sandbox_ref =
      unfold inputs_of in some-resolve_tool_sandbox c a a.spec.tool_sandbox_ref in
    let policies : one_if_any i.policies ≤ one_if_any a.spec.policy_refs =
      unfold inputs_of in any-resolved_policies c a a.spec.policy_refs in
    let most = any-length a.spec.policy_refs in
    let preview = previewed_containers-build a in omega arith
