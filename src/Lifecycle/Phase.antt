-- ===== src/Lifecycle/Phase.antt =====
-- When manager.go calls an agent suspended, updating or stable.
use ronak_agentk_runtime.Base.{ℕ, ◌≡◌, ◌≢◌, ◌↔◌, Option, none, some, true, arith, eq_iff}
use ronak_agentk_runtime.Base.Int.{ℤ, pos, le_int}
use ronak_agentk_runtime.Lifecycle.{determine_lifecycle_phase}

-- A rollout that is under way: some generation was observed, and it is not the current one.
pub record IsRollout (replicas : Option ℕ) (observed current : ℤ) : Type 0 where
  pub awake : replicas ≢ some 0
  pub seen : le_int (pos 1) observed ≡ true
  pub behind : observed ≢ current

-- An agent is in the phase updating exactly when it is not scaled to zero, some generation was
-- observed (at least 1), and that is not the current one.
pub determine_lifecycle_phase-updating_iff :
    (replicas : Option ℕ) (observed current : ℤ)
    → (determine_lifecycle_phase replicas observed current ≡ "updating")
      ↔ IsRollout replicas observed current
unfolding determine_lifecycle_phase
determine_lifecycle_phase-updating_iff (some ℕ.zero) o c = (
  λ h. ground (arith, eq_iff "suspended" "updating", eq_iff "stable" "updating"),
  λ h. ground (arith, eq_iff "suspended" "updating", eq_iff "stable" "updating"),
)
determine_lifecycle_phase-updating_iff (some (ℕ.suc n)) (pos o) (pos c) = (
  λ h. ground (arith, eq_iff "suspended" "updating", eq_iff "stable" "updating"),
  λ h. ground (arith, eq_iff "suspended" "updating", eq_iff "stable" "updating"),
)
determine_lifecycle_phase-updating_iff (some (ℕ.suc n)) o c = (
  λ h. ground (arith, eq_iff "suspended" "updating", eq_iff "stable" "updating"),
  λ h. ground (arith, eq_iff "suspended" "updating", eq_iff "stable" "updating"),
)
determine_lifecycle_phase-updating_iff none (pos o) (pos c) = (
  λ h. ground (arith, eq_iff "suspended" "updating", eq_iff "stable" "updating"),
  λ h. ground (arith, eq_iff "suspended" "updating", eq_iff "stable" "updating"),
)
determine_lifecycle_phase-updating_iff none o c = (
  λ h. ground (arith, eq_iff "suspended" "updating", eq_iff "stable" "updating"),
  λ h. ground (arith, eq_iff "suspended" "updating", eq_iff "stable" "updating"),
)

pub determine_lifecycle_phase-suspended_iff :
    (replicas : Option ℕ) (observed current : ℤ)
    → (determine_lifecycle_phase replicas observed current ≡ "suspended") ↔ (replicas ≡ some 0)
unfolding determine_lifecycle_phase
determine_lifecycle_phase-suspended_iff (some ℕ.zero) o c = (
  λ h. ground (arith, eq_iff "updating" "suspended", eq_iff "stable" "suspended"),
  λ h. ground (arith, eq_iff "updating" "suspended", eq_iff "stable" "suspended"),
)
determine_lifecycle_phase-suspended_iff (some (ℕ.suc n)) o c = (
  λ h. ground (arith, eq_iff "updating" "suspended", eq_iff "stable" "suspended"),
  λ h. ground (arith, eq_iff "updating" "suspended", eq_iff "stable" "suspended"),
)
determine_lifecycle_phase-suspended_iff none o c = (
  λ h. ground (arith, eq_iff "updating" "suspended", eq_iff "stable" "suspended"),
  λ h. ground (arith, eq_iff "updating" "suspended", eq_iff "stable" "suspended"),
)
