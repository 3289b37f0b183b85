-- ===== src/Deploy/Found.antt =====
-- Which container findContainerByName gives after a write and after an append.
use ronak_agentk_runtime.Base.{
  ℕ, String, false, none, some, List, [], ◌∷◌, ◌++◌, ◌≡◌, refl, sym, ◌∙◌, ap, inl, inr, Bool-cases,
  Option-cases, eq_iff, arith, if◌then◌else◌, ◌==◌,
}
use mathlib.Core.Option
use ronak_agentk_runtime.Kube.{Container}
use ronak_agentk_runtime.Deploy.Containers.{Slice, append, find_container_by_name, write_container}

-- What is found stays found behind appended containers.
pub find-append_some :
    (n : String) (xs ys : List Container) {c : Container}
    → find_container_by_name n xs ≡ some c
    → find_container_by_name n (xs ++ ys) ≡ some c
unfolding find_container_by_name
find-append_some n [] ys h = cc
find-append_some n (x ∷ xs) ys h = elim (Bool-cases (x.name == n)) [
  | inl t ↦ let h' : some x ≡ some _ = (rw (find_container_by_name, t) at h) in rw t h'
  | inr t ↦ let h' = (rw (find_container_by_name, t) at h) in rw t (find-append_some n xs ys h')
]

pub find-append_none :
    (n : String) (xs : List Container) (c : Container)
    → find_container_by_name n xs ≡ none
    → find_container_by_name n (xs ++ c ∷ []) ≡ (if c.name == n then some c else none)
unfolding find_container_by_name
find-append_none n [] c h = refl
find-append_none n (x ∷ xs) c h = elim (Bool-cases (x.name == n)) [
  | inl t ↦ let h' : some x ≡ none = (rw (find_container_by_name, t) at h) in cc
  | inr t ↦ let h' = (rw (find_container_by_name, t) at h) in rw t (find-append_none n xs c h')
]

module _ (m : String) (change : Container → Container)
    (keeps : (c : Container) → (change c).name ≡ c.name) where
  pub find-write_self :
      (xs : List Container)
      → find_container_by_name m (write_container m change xs)
        ≡ Option.map change (find_container_by_name m xs)
  unfolding find_container_by_name write_container
  find-write_self [] = refl
  find-write_self (x ∷ xs) = elim (Bool-cases (x.name == m)) [
    | inl t ↦ rw t (rw (keeps x) (rw t refl))
    | inr t ↦ rw t (rw t (find-write_self xs))
  ]

  -- A write under one name is not seen under another.
  pub find-write_ne :
      (n : String) (xs : List Container)
      → (m == n) ≡ false
      → find_container_by_name n (write_container m change xs) ≡ find_container_by_name n xs
  unfolding find_container_by_name write_container
  find-write_ne n [] h = refl
  find-write_ne n (x ∷ xs) h = elim (Bool-cases (x.name == m)) [
    | inl t ↦
        let e : (x.name == n) ≡ false = (rw ((eq_iff x.name m).0 t) h) in
        rw t (rw (keeps x) (rw e refl))
    | inr t ↦ rw t (ap (λ o. if x.name == n then some x else o) (find-write_ne n xs h))
  ]

-- An append is not seen under another name.
pub find-append_ne :
    (n : String) (xs : List Container) (c : Container)
    → (c.name == n) ≡ false
    → find_container_by_name n (xs ++ c ∷ []) ≡ find_container_by_name n xs
find-append_ne n xs c h = elim (Option-cases (find_container_by_name n xs)) [
  | inl e ↦ find-append_none n xs c e ∙ rw h (sym e)
  | inr (d, e) ↦ find-append_some n xs (c ∷ []) e ∙ sym e
]

pub items-append :
    (new_room : ℕ → ℕ) (c : Container) (s : Slice) → (append new_room c s).items ≡ s.items ++ c ∷ []
unfolding append
items-append new_room c s = ground arith
