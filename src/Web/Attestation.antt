-- ===== src/Web/Attestation.antt =====
-- web-dashboard/frontend/src/pages/Attestation.tsx
pub mod View
use ronak_agentk_runtime.Base.{
  ℕ, String, Bool, true, false, Option, none, some, List, [], ◌∷◌, ◌==◌, if◌then◌else◌, itoa,
}
use Prim.Native.String.{◌++◌}
use ronak_agentk_runtime.Web.Browser.{
  Browser, Reply, Request, or_default, Outcome, returned, thrown,
}
use ronak_agentk_runtime.Web.LiveAgents.{or_none, shown}
use ronak_agentk_runtime.Web.Fetch.{get_attestation, call_api}

pub record AttestationItem : Type 0 where
  pub name : String
  pub agent_ref : String
  pub tee_provider : String
  pub verified : Bool
  pub last_attestation_time : Option String
  pub runtime_class_name : String
  pub memory_encryption : Bool
  pub enclave_memory_mb : ℕ
  pub deployment_name : String
  pub attestation_report : Option String

pub record Attestation : Type 0 where
  pub attestations : List AttestationItem
  pub selected : Option AttestationItem
  pub loading : Bool

unfoldable pub initial : Attestation
initial = record { attestations = []; selected = none; loading = true }

unfoldable pub loaded : Attestation → Outcome (Option (List AttestationItem)) → Attestation
loaded s (returned r) = record s { attestations = or_none r; loading = false }
loaded s (thrown _) = record s { loading = false }

-- loadDetail after its `await`: an error is swallowed
unfoldable pub detail_loaded : Attestation → Outcome AttestationItem → Attestation
detail_loaded s (returned d) = record s { selected = some d }
detail_loaded s (thrown _) = s

-- loadDetail
unfoldable pub load_detail :
    (AttestationItem → Option String)
    → (Request → Reply AttestationItem)
    → Browser
    → Attestation
    → String
    → Browser × Attestation
unfolding detail_loaded call_api
load_detail detail send b s name =
    let (b', r) = call_api detail send b (get_attestation name "default") in (b', detail_loaded s r)

-- whether a card is marked as the selected one
abbrev pub is_selected : Option AttestationItem → AttestationItem → Bool
is_selected none a = false
is_selected (some d) a = d.name == a.name

-- A card: title, subtitle, label, time, and whether it is the selected one.
unfoldable pub card :
    Attestation → AttestationItem → String × String × String × Option String × Bool
card s a = (
  a.name,
  "Agent: " ++ a.agent_ref ++ " | TEE: " ++ a.tee_provider,
  if a.verified then "VERIFIED" else "UNVERIFIED",
  shown a.last_attestation_time,
  is_selected s.selected a,
)

abbrev detail_row : String → String → String × String
detail_row label value = (label, or_default (some value) "n/a")

-- The rows of the detail panel.
unfoldable pub detail_rows : AttestationItem → List (String × String)
unfolding itoa
detail_rows d =
    detail_row "TEE Provider" d.tee_provider
    ∷ detail_row "Verified" (if d.verified then "YES (ECDSA signature verified)" else "NO")
    ∷ detail_row "Referenced Agent" d.agent_ref
    ∷ detail_row "Runtime Class" d.runtime_class_name
    ∷ detail_row "Memory Encryption" (if d.memory_encryption then "Enabled" else "Disabled")
    ∷ detail_row "Enclave Memory" (itoa d.enclave_memory_mb ++ " MB")
    ∷ detail_row "Deployment" d.deployment_name
    ∷ detail_row "Last Attestation" (or_default d.last_attestation_time "")
    ∷ []
