-- ===== src/Base/Maps.antt =====
-- Go's maps keyed by text, as association lists: `lookup` reads the first binding of a key.
use Prim.Native.String.{String}
use mathlib.Core.Path.{◌≡◌, refl}
use mathlib.Core.Option.{Option, none, some}
use mathlib.Core.List.{List, [], ◌∷◌}
use native.Mathlib.Omega.{arith}
use text.Mathlib.Text.{◌==◌}
use text.Mathlib.TextEquality.{eq_iff}
use ronak_agentk_runtime.Base.Tests.{if◌then◌else◌}

abbrev pub Dict {ℓ} : Type ℓ → Type ℓ
Dict V = List (String × V)

abbrev pub or_else {ℓ} : {A : Type ℓ} → Option A → Option A → Option A
or_else none d = d
or_else (some a) d = some a

module _ {ℓ} {V : Type ℓ} where
  -- `v, ok := m[wanted]`
  unfoldable pub lookup : String → Dict V → Option V
  lookup wanted [] = none
  lookup wanted ((key, value) ∷ rest) = if key == wanted then some value else lookup wanted rest

  -- `m[name] = new`: in place if the name is bound, else at the end
  unfoldable pub insert : String → V → Dict V → Dict V
  insert name new [] = (name, new) ∷ []
  insert name new ((key, old) ∷ rest) =
      if key == name then (name, new) ∷ rest else (key, old) ∷ insert name new rest

  -- `maps.Copy(dst, src)`
  unfoldable pub copy : Dict V → Dict V → Dict V
  copy dst [] = dst
  copy dst ((k, v) ∷ src) = insert k v (copy dst src)

  -- The new binding is read under its name, and every other name reads what it read before.
  pub lookup-insert :
      (name wanted : String) (new : V) (dict : Dict V)
      → lookup wanted (insert name new dict)
        ≡ (if name == wanted then some new else lookup wanted dict)
  unfolding insert lookup
  lookup-insert name wanted new [] = refl
  lookup-insert name wanted new ((key, old) ∷ rest) =
      let later = lookup-insert name wanted new rest in
      ground (arith, later, eq_iff key wanted, eq_iff key name, eq_iff name wanted)

  -- A copied binding wins over what stood in the destination.
  pub lookup-copy :
      (k : String) (dst src : Dict V)
      → lookup k (copy dst src) ≡ or_else (lookup k src) (lookup k dst)
  unfolding lookup copy
  lookup-copy k dst [] = refl
  lookup-copy k dst ((j, v) ∷ src) =
      ground (arith, lookup-insert j k v (copy dst src), lookup-copy k dst src)
