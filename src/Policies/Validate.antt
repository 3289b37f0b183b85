-- ===== src/Policies/Validate.antt =====
-- internal/controller/policy_reconciler.go. meta.SetStatusCondition is a parameter.
use ronak_agentk_runtime.Base.{
  String, Bool, true, false, not, ◌&&◌, Option, none, some, List, [], ◌∷◌, ◌==◌, is_some, itoa,
  length, if◌then◌else◌, Fetched, found, not_found, no_match, failed, join,
}
use ronak_agentk_runtime.Base.Int.{pos, add32}
use Prim.Native.String.{◌++◌}
use ronak_agentk_runtime.Api.Agent.{Condition}
use ronak_agentk_runtime.Api.Resources.{Policy, PolicyRule, PolicyStatus}
use ronak_agentk_runtime.Refs.Cluster.{quote}

abbrev require : Bool → PolicyRule → String → Option String
require present r message =
    if present then none else some (join "" ("rule " ∷ quote r.name ∷ ": " ∷ message ∷ []))

-- The cases of the switch on the policy's type; another type requires nothing.
unfoldable pub validate_rule : String → PolicyRule → Option String
validate_rule kind r =
    if kind == "ebpf"
    then require (is_some r.ebpf) r "eBPF policy type requires ebpf configuration"
    else if kind == "opa"
    then require (is_some r.opa) r "OPA policy type requires opa configuration"
    else if kind == "hybrid"
    then require (not (not (is_some r.ebpf) && not (is_some r.opa))) r
        "hybrid policy type requires at least one of ebpf or opa configuration"
    else none

-- The error of the first rule that has one.
unfoldable pub validate_rules : String → List PolicyRule → Option String
validate_rules kind [] = none
validate_rules kind (r ∷ rest) = elim (validate_rule kind r) [
  | some m ↦ some m
  | none ↦ validate_rules kind rest
]

abbrev policy_condition : Policy → Bool → String → String → Condition
policy_condition p status reason message = record {
  kind = "Ready";
  status = status;
  reason = reason;
  message = message;
  observed_generation = p.generation;
}

-- The status handed to Status().Update, if any, and the error returned.
pub record PolicyOutcome : Type 0 where
  pub written : Option PolicyStatus
  pub error : Option String

module _ (set_status_condition : List Condition → Condition → List Condition) where
  unfoldable pub policy_ready : Policy → PolicyStatus → PolicyStatus
  unfolding add32 itoa
  policy_ready p status = record {
    conditions = set_status_condition status.conditions (
        policy_condition p true "Validated"
          (join "" ("Policy validated with " ∷ itoa (length p.rules) ∷ " rules" ∷ [])));
    rule_count = add32 (pos (length p.rules)) (pos 0);
    enforced = p.enforcement == "enforcing";
  }

  unfoldable pub policy_not_ready : Policy → PolicyStatus → String → String → PolicyStatus
  policy_not_ready p status reason message = record status {
    enforced = false;
    conditions = set_status_condition status.conditions (policy_condition p false reason message);
  }

  abbrev policy_status_error : Option String → Option String
  policy_status_error none = none
  policy_status_error (some m) = some ("failed to update policy status: " ++ m)

  -- A policy that does not validate returns no error, so that it is not queued again. The error of
  -- the status's write is given.
  unfoldable pub reconcile_policy : Option String → Policy → PolicyStatus → PolicyOutcome
  unfolding policy_ready policy_not_ready
  reconcile_policy write_error p status = elim (validate_rules p.kind p.rules) [
    | some m ↦ record {
      written = some (policy_not_ready p status "ValidationFailed" m);
      error = none;
    }
    | none ↦ record {
      written = some (policy_ready p status);
      error = policy_status_error write_error;
    }
  ]

  -- Reconcile, from what the Get of the policy gives.
  unfoldable pub reconcile_policy_request :
      Option String → Fetched (Policy × PolicyStatus) → PolicyOutcome
  unfolding reconcile_policy
  reconcile_policy_request e (found (p, status)) = reconcile_policy e p status
  reconcile_policy_request e not_found = record { written = none; error = none }
  reconcile_policy_request e no_match = record {
    written = none;
    error = some "no matches for kind";
  }
  reconcile_policy_request e (failed m) = record { written = none; error = some m }
