-- ===== src/Admission/Prefixes.antt =====
-- strings.HasPrefix in the test of two mounts of agent_webhook.go, against what it means for a text
-- to begin with another.
use text.Mathlib.TextEquality.{Char-path}
use Prim.Native.Char.{Char, code}
use Prim.Native.String
use Prim.Native.String.append
use ronak_agentk_runtime.Base.{
  ℕ, String, true, false, [], eq_iff, ◌≡◌, ◌↔◌, ◌⊎◌, refl, sym, ap, arith, inl, inr, Bool-cases,
}
use ronak_agentk_runtime.Kube.{VolumeMount}
use ronak_agentk_runtime.Admission.Mounts.{has_prefix, is_nested, compare_mounts}

abbrev pub Begins : String → String → Type 0
Begins p s = (rest : String) × (s ≡ String.◌++◌ p rest)

nil_append : (t : String) → String.◌++◌ String.[] t ≡ t
nil_append t = append.nil t

cons_append :
    (c : Char) (p t : String) → String.◌++◌ (String.◌∷◌ c p) t ≡ String.◌∷◌ c (String.◌++◌ p t)
cons_append c p t = append.cons c p t

has_prefix_iff : (p s : String) → (has_prefix p s ≡ true) ↔ Begins p s
unfolding has_prefix
has_prefix_iff String.[] s = (λ h. (s, sym (nil_append s)), λ h. refl)
has_prefix_iff (String.◌∷◌ c p) String.[] = (λ h. cc h, λ (r, e). cc (e, cons_append c p r))
has_prefix_iff (String.◌∷◌ c p) (String.◌∷◌ d s) = (
  λ h.
      let same : code c ≡ code d = ground (arith, h) in
      let later : has_prefix p s ≡ true = ground (arith, h) in
      let (rest, e) = (has_prefix_iff p s).0 later in
      (rest, cc (Char-path c d same, e, cons_append c p rest)),
  λ (rest, e).
      let first : c ≡ d = cc (e, cons_append c p rest) in
      let tail : s ≡ String.◌++◌ p rest = cc (e, cons_append c p rest) in
      let later : has_prefix p s ≡ true = (has_prefix_iff p s).1 (rest, tail) in
      ground (arith, ap code first, later),
)

-- No text of the first path with a slash behind it begins with the other's.
pub not-is_nested_iff :
    (inner outer : String)
    → (is_nested inner outer ≡ false) ↔ (¬ Begins (String.◌++◌ outer "/") (String.◌++◌ inner "/"))
not-is_nested_iff inner outer = (
  λ h b. cc (h, (has_prefix_iff (String.◌++◌ outer "/") (String.◌++◌ inner "/")).1 b),
  λ n. elim (Bool-cases (is_nested inner outer)) [
    | inl t ↦ absurd (n ((has_prefix_iff (String.◌++◌ outer "/") (String.◌++◌ inner "/")).0 t))
    | inr f ↦ f
  ],
)

module _ (clean : String → String) where
  -- Two mounts with equal paths, or of which neither path's text, with a slash behind it, begins with
  -- the other's, with a slash behind it. An empty path of the later one is left alone.
  abbrev pub IsApart : VolumeMount → VolumeMount → Type 0
  IsApart m n =
      (n.mount_path ≡ "")
      ⊎ (clean m.mount_path ≡ clean n.mount_path)
      ⊎ ((¬ Begins (String.◌++◌ (clean m.mount_path) "/") (String.◌++◌ (clean n.mount_path) "/"))
          × (¬ Begins (String.◌++◌ (clean n.mount_path) "/")
              (String.◌++◌ (clean m.mount_path) "/")))

  tests_lem :
      (m n : VolumeMount) (i j : ℕ)
      → (compare_mounts clean m i n j ≡ []) ↔ (
          (n.mount_path ≡ "")
          ⊎ (clean m.mount_path ≡ clean n.mount_path)
          ⊎ ((is_nested (clean n.mount_path) (clean m.mount_path) ≡ false)
              × (is_nested (clean m.mount_path) (clean n.mount_path) ≡ false)))
  unfolding compare_mounts
  tests_lem m n i j = (
    λ h. ground (arith, eq_iff n.mount_path "", eq_iff (clean m.mount_path) (clean n.mount_path)),
    λ h. ground (arith, eq_iff n.mount_path "", eq_iff (clean m.mount_path) (clean n.mount_path)),
  )

  pub compare_mounts_lem :
      (m n : VolumeMount) (i j : ℕ) → (compare_mounts clean m i n j ≡ []) ↔ IsApart m n
  compare_mounts_lem m n i j =
      let a = not-is_nested_iff (clean n.mount_path) (clean m.mount_path) in
      let b = not-is_nested_iff (clean m.mount_path) (clean n.mount_path) in
      let c = tests_lem m n i j in (λ h. last a.0 b.0 (c.0 h), λ h. c.1 (last a.1 b.1 h))
    where
      last : {X Y A B P Q : Type 0} → (A → P) → (B → Q) → X ⊎ Y ⊎ (A × B) → X ⊎ Y ⊎ (P × Q)
      last f g (inl x) = inl x
      last f g (inr (inl y)) = inr (inl y)
      last f g (inr (inr (p, q))) = inr (inr (f p, g q))
