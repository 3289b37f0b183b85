-- ===== src/Policies/Tests.antt =====
-- A policy with one rule.
use ronak_agentk_runtime.Base.{true, none, some, [], ◌∷◌, ◌≡◌, ◌↔◌, All}
use ronak_agentk_runtime.Base.Int.{pos}
use mathlib.Core.Bool.{false}
use ronak_agentk_runtime.Api.Resources.{Policy, PolicyStatus}
use ronak_agentk_runtime.Policies.Validate.{reconcile_policy}
use ronak_agentk_runtime.Policies.Enforced.{Fits, is_enforced, reconcile_policy-enforced_iff}

abbrev policy : Policy
policy = record {
  name = "p";
  namespace = "default";
  generation = pos 1;
  kind = "opa";
  enforcement = "enforcing";
  rules = record { name = "r"; ebpf = none; opa = some "package p" } ∷ [];
}

abbrev blank : PolicyStatus
blank = record { conditions = []; rule_count = pos 0; enforced = false }

reconcile_policy-enforced_iff_example :
    (is_enforced (reconcile_policy (λ cs c. c ∷ cs) none policy blank) ≡ true)
    ↔ ((policy.enforcement ≡ "enforcing") × All (Fits policy.kind) policy.rules)
reconcile_policy-enforced_iff_example =
    reconcile_policy-enforced_iff (λ cs c. c ∷ cs) none policy blank
