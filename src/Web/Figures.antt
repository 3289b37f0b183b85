-- ===== src/Web/Figures.antt =====
-- The figures and colours that the pages show, against one another.
use ronak_agentk_runtime.Base.{
  ℕ, suc, ◌≤◌, String, Bool, true, false, Option, none, some, List, [], ◌∷◌, map, ◌≡◌, ◌≢◌, ◌↔◌,
  refl, arith, eq_iff, Bool-cases, inl, inr, ◌==◌, if◌then◌else◌, length, take,
}
use ronak_agentk_runtime.Web.Browser.{is_truthy}
use ronak_agentk_runtime.Web.LiveAgents.{AgentItem}
use ronak_agentk_runtime.Web.Overview.{
  Overview, is_compliant, compliant_count, Row, row, rows, Variant, success, count,
}
use ronak_agentk_runtime.Web.CostGraph.{fill, badge_class, badge_text}

abbrev is_success : Variant → Bool
is_success success = true
is_success _ = false

-- The rows whose governance badge is green.
abbrev pub green_rows : List Row → ℕ
green_rows = count (λ (r : Row). is_success (r.governance).1)

green_rows-row :
    (agents : List AgentItem)
    → green_rows (map row agents)
      ≡ count (λ (a : AgentItem). is_compliant a.governance_status) agents
unfolding row
green_rows-row [] = refl
green_rows-row (a ∷ as') = ground (arith, green_rows-row as')

count-take {ℓ} :
    {A : Type ℓ} (p : A → Bool) (k : ℕ) (xs : List A) → count p (take k xs) ≤ count p xs
count-take p ℕ.zero xs = omega arith
count-take p (suc k) [] = omega arith
count-take p (suc k) (x ∷ xs) = ground (arith, count-take p k xs)

take_all {ℓ} : {A : Type ℓ} (k : ℕ) (xs : List A) → length xs ≤ k → take k xs ≡ xs
take_all ℕ.zero [] h = refl
take_all ℕ.zero (x ∷ xs) h = absurd (omega arith)
take_all (suc k) [] h = refl
take_all (suc k) (x ∷ xs) h = cc (take_all k xs (omega arith))

-- The table of the dashboard has at most as many green governance badges as its figure of
-- compliant agents, and equally many if there are at most eight agents.
pub rows-compliant_count :
    (s : Overview)
    → (green_rows (rows s) ≤ compliant_count s)
      × (length s.agents ≤ 8 → green_rows (rows s) ≡ compliant_count s)
unfolding rows compliant_count
rows-compliant_count s = (
  rw (green_rows-row (take 8 s.agents)) (count-take _ 8 s.agents),
  λ h. rw (take_all 8 s.agents h) (green_rows-row s.agents),
)

-- The badge that goes with a bar: green with the indigo one, yellow with the amber one, and red with
-- any other.
abbrev pub badge_beside : String → String
badge_beside bar =
    if bar == "#6366f1"
    then "bg-green-100 text-green-700"
    else if bar == "#f59e0b"
    then "bg-yellow-100 text-yellow-700"
    else "bg-red-100 text-red-700"

green_is_not_red : badge_beside "#6366f1" ≢ badge_beside "#ef4444"
green_is_not_red h = cc h

-- On the cost page the badge of an agent in the table is the one that goes with its bar in the
-- chart, green with indigo, yellow with amber and red with red, exactly when the backend reports
-- an action that is not empty.
pub fill-badge_class :
    (action : Option String)
    → (badge_beside (fill (badge_text action)) ≡ badge_class action) ↔ (is_truthy action ≡ true)
unfolding fill badge_class
fill-badge_class none = (λ h. absurd (green_is_not_red h), λ h. cc)
fill-badge_class (some s) = elim (Bool-cases (s == "")) [
  | inl e ↦
      let empty : s ≡ "" = (eq_iff s "").0 e in
      (λ h. absurd (green_is_not_red (rw empty at h)), λ h. cc (e, h))
  | inr e ↦ (
    λ h. rw e,
    λ h. rw e (elim (Bool-cases (s == "none")) [
      | inl n ↦ rw n refl
      | inr n ↦
          rw n (elim (Bool-cases (s == "downgraded")) [ inl d ↦ rw d refl | inr d ↦ rw d refl ])
    ]),
  )
]
