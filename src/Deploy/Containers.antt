-- ===== src/Deploy/Containers.antt =====
-- The containers of a pod while ensureDeployment changes them, and findContainerByName of
-- internal/controller/util.go. A Go slice has its items and, behind them, room for further ones; an
-- append without room moves the items to a new array, and a pointer into the old one no longer
-- reaches the slice.
use ronak_agentk_runtime.Base.{
  ℕ, zero, suc, String, Bool, false, Option, none, some, List, [], ◌∷◌, ◌++◌, length, if◌then◌else◌,
  ◌==◌,
}
use ronak_agentk_runtime.Kube.{Container}

unfoldable pub find_container_by_name : String → List Container → Option Container
find_container_by_name name [] = none
find_container_by_name name (c ∷ rest) =
    if c.name == name then some c else find_container_by_name name rest

-- A write through the pointer that findContainerByName gives.
unfoldable pub write_container : String → (Container → Container) → List Container → List Container
write_container name change [] = []
write_container name change (c ∷ rest) =
    if c.name == name then change c ∷ rest else c ∷ write_container name change rest

-- `deployment.Spec.Template.Spec.Containers`; `live` says whether the pointer to the agent's
-- container still points into it.
pub record Slice : Type 0 where
  pub items : List Container
  pub room : ℕ
  pub live : Bool

-- `append`. The runtime chooses the room of a new array, by the number of items it is to hold.
unfoldable pub append : (ℕ → ℕ) → Container → Slice → Slice
append new_room c s = elim s.room [
  | zero ↦ record {
    items = s.items ++ c ∷ [];
    room = new_room (suc (length s.items));
    live = false;
  }
  | suc n ↦ record { items = s.items ++ c ∷ []; room = n; live = s.live }
]
