-- ===== src/Policies/Enforced.antt =====
-- When the status of a policy says that it is enforced.
use ronak_agentk_runtime.Base.{
  String, Bool, true, false, Option, none, some, List, [], ◌∷◌, ◌≡◌, ◌≢◌, ◌↔◌, ◌⊎◌, inl, inr, refl,
  All, arith, eq_iff, Option-cases, Bool-cases, is_some,
}
use ronak_agentk_runtime.Api.Agent.{Condition}
use ronak_agentk_runtime.Api.Resources.{Policy, PolicyRule, PolicyStatus}
use ronak_agentk_runtime.Policies.Validate.{
  validate_rule, validate_rules, policy_ready, policy_not_ready, PolicyOutcome, reconcile_policy,
}

-- A rule has what the type of its policy asks for.
abbrev pub Fits : String → PolicyRule → Type 0
Fits kind r =
    ((kind ≡ "ebpf") × (is_some r.ebpf ≡ true))
    ⊎ (((kind ≡ "opa") × (is_some r.opa ≡ true))
        ⊎ (((kind ≡ "hybrid") × ((is_some r.ebpf ≡ true) ⊎ (is_some r.opa ≡ true)))
            ⊎ ((kind ≢ "ebpf") × ((kind ≢ "opa") × (kind ≢ "hybrid")))))

validate_rule-none : (kind : String) (r : PolicyRule) → validate_rule kind r ≡ none → Fits kind r
unfolding validate_rule
validate_rule-none kind r h =
    ground (arith, eq_iff kind "ebpf", eq_iff kind "opa", eq_iff kind "hybrid")

Fits-none : (kind : String) (r : PolicyRule) → Fits kind r → validate_rule kind r ≡ none
unfolding validate_rule
Fits-none kind r (inl (e, h)) = rw e (rw h refl)
Fits-none kind r (inr (inl (e, h))) = rw e (rw h refl)
Fits-none kind r (inr (inr (inl (e, inl h)))) = rw e (rw h refl)
Fits-none kind r (inr (inr (inl (e, inr h)))) = elim (Bool-cases (is_some r.ebpf)) [
  | inl t ↦ rw e (rw t refl)
  | inr t ↦ rw e (rw t (rw h refl))
]
Fits-none kind r (inr (inr (inr (a, (b, c))))) =
    ground (arith, a, b, c, eq_iff kind "ebpf", eq_iff kind "opa", eq_iff kind "hybrid")

validate_rules-none :
    (kind : String) (rs : List PolicyRule) → validate_rules kind rs ≡ none → All (Fits kind) rs
unfolding validate_rules
validate_rules-none kind [] h = tt
validate_rules-none kind (r ∷ rest) h = elim (Option-cases (validate_rule kind r)) [
  | inl e ↦
      (validate_rule-none kind r e, validate_rules-none kind rest (rw (validate_rules, e) at h))
  | inr (m, e) ↦ let bad : some m ≡ none = (rw (validate_rules, e) at h) in cc bad
]

All-none :
    (kind : String) (rs : List PolicyRule) → All (Fits kind) rs → validate_rules kind rs ≡ none
unfolding validate_rules
All-none kind [] h = refl
All-none kind (r ∷ rest) (f, fs) = rw (validate_rules, Fits-none kind r f) (All-none kind rest fs)

abbrev pub is_enforced : PolicyOutcome → Bool
is_enforced o = elim o.written [ none ↦ false | some s ↦ s.enforced ]

module _ (set_status_condition : List Condition → Condition → List Condition) where
  -- A reconciliation of a policy writes a status that says enforced exactly when the enforcement
  -- is enforcing and every rule has what the type of the policy asks for: an eBPF program, a Rego
  -- text, for a hybrid one of the two, and for another type nothing.
  pub reconcile_policy-enforced_iff :
      (write_error : Option String) (p : Policy) (status : PolicyStatus)
      → (is_enforced (reconcile_policy set_status_condition write_error p status) ≡ true)
        ↔ ((p.enforcement ≡ "enforcing") × All (Fits p.kind) p.rules)
  unfolding reconcile_policy policy_ready policy_not_ready
  reconcile_policy-enforced_iff write_error p status =
      elim (Option-cases (validate_rules p.kind p.rules)) [
        | inl e ↦
            rw (is_enforced, e)
              (
                λ h. ((eq_iff p.enforcement "enforcing").0 h, validate_rules-none p.kind p.rules e),
                λ h. (eq_iff p.enforcement "enforcing").1 h.0,
              )
        | inr (m, e) ↦
            rw (is_enforced, e) (λ h. cc h, λ h. let none' = All-none p.kind p.rules h.1 in cc)
      ]
