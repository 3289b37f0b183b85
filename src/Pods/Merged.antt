-- ===== src/Pods/Merged.antt =====
-- The variables that a merged environment has under a name.
use mathlib.Core.Path.{subst}
use mathlib.Core.Option.{Option-elim}
use mathlib.Core.List.{Perm, filter_map}
use mathlib.Core.List.Perm
use ronak_agentk_runtime.Base.{
  String, true, false, Option, none, some, List, [], ◌∷◌, ◌==◌, eq_iff, lookup, insert, Dict,
  lookup-insert, or_else, ◌≡◌, refl, ap, sym, ◌∙◌, arith, Bool-cases, Option-cases, inl, inr,
  if◌then◌else◌, All,
}
use ronak_agentk_runtime.Kube.{EnvVar}
use ronak_agentk_runtime.Pods.Env.{
  user_env_map, delete, values, override, merge_environment_variables,
}

-- The variables of a name, in order.
abbrev pub named : String → List EnvVar → List EnvVar
named k [] = []
named k (e ∷ es) = if e.name == k then e ∷ named k es else named k es

-- The last variable of a name, which a map made of the list holds.
abbrev pub find_last : String → List EnvVar → Option EnvVar
find_last k [] = none
find_last k (e ∷ es) = or_else (find_last k es) (if e.name == k then some e else none)

lookup-user_env_map :
    (k : String) (m : Dict EnvVar) (es : List EnvVar)
    → lookup k (user_env_map m es) ≡ or_else (find_last k es) (lookup k m)
unfolding user_env_map
lookup-user_env_map k m [] = refl
lookup-user_env_map k m (e ∷ es) =
    ground (arith, lookup-user_env_map k (insert e.name e m) es, lookup-insert e.name k e m)

lookup-delete :
    (k j : String) (m : Dict EnvVar) → lookup k (delete j m) ≡ (if j == k then none else lookup k m)
unfolding delete lookup
lookup-delete k j [] = ground arith
lookup-delete k j ((i, e) ∷ m) =
    ground (arith, eq_iff i j, eq_iff i k, eq_iff j k, lookup-delete k j m)

-- Every binding of the map is under its variable's own name.
abbrev Named : Dict EnvVar → Type 0
Named m = All (λ (b : String × EnvVar). b.0 ≡ (b.1).name) m

Named-insert : (e : EnvVar) (m : Dict EnvVar) → Named m → Named (insert e.name e m)
unfolding insert
Named-insert e [] h = (refl, tt)
Named-insert e ((j, x) ∷ m) (jx, h) = elim (Bool-cases (j == e.name)) [
  | inl same ↦ rw same (refl, h)
  | inr other ↦ rw other (jx, Named-insert e m h)
]

Named-user_env_map : (es : List EnvVar) (m : Dict EnvVar) → Named m → Named (user_env_map m es)
unfolding user_env_map
Named-user_env_map [] m h = h
Named-user_env_map (e ∷ es) m h = Named-user_env_map es (insert e.name e m) (Named-insert e m h)

Named-delete : (k : String) (m : Dict EnvVar) → Named m → Named (delete k m)
unfolding delete
Named-delete k [] h = h
Named-delete k ((j, x) ∷ m) (jx, h) = elim (Bool-cases (j == k)) [
  | inl same ↦ rw same (Named-delete k m h)
  | inr other ↦ rw other (jx, Named-delete k m h)
]

name-lookup :
    (k : String) (u : EnvVar) (m : Dict EnvVar) → Named m → lookup k m ≡ some u → u.name ≡ k
unfolding lookup
name-lookup k u [] h e = cc e
name-lookup k u ((j, x) ∷ m) (jx, h) e = elim (Bool-cases (j == k)) [
  | inl same ↦
      let xu : x ≡ u = cc (rw same at e) in
      sym (ap (λ (v : EnvVar). v.name) xu) ∙ sym jx ∙ (eq_iff j k).0 same
  | inr other ↦ name-lookup k u m h (rw other at e)
]

-- No two bindings of the map are under one name.
abbrev IsUnique : Dict EnvVar → Type 0
IsUnique [] = Unit
IsUnique ((j, _) ∷ m) = (lookup j m ≡ none) × IsUnique m

insert-IsUnique : (e : EnvVar) (m : Dict EnvVar) → IsUnique m → IsUnique (insert e.name e m)
unfolding insert lookup
insert-IsUnique e [] h = (refl, tt)
insert-IsUnique e ((j, x) ∷ m) (fresh, h) = elim (Bool-cases (j == e.name)) [
  | inl same ↦ rw same (ground (arith, eq_iff j e.name), h)
  | inr other ↦ rw other (
    ground (arith, lookup-insert e.name j e m, eq_iff j e.name, eq_iff e.name j),
    insert-IsUnique e m h,
  )
]

user_env_map-IsUnique :
    (es : List EnvVar) (m : Dict EnvVar) → IsUnique m → IsUnique (user_env_map m es)
unfolding user_env_map
user_env_map-IsUnique [] m h = h
user_env_map-IsUnique (e ∷ es) m h =
    user_env_map-IsUnique es (insert e.name e m) (insert-IsUnique e m h)

delete-IsUnique : (k : String) (m : Dict EnvVar) → IsUnique m → IsUnique (delete k m)
unfolding delete lookup
delete-IsUnique k [] h = h
delete-IsUnique k ((j, x) ∷ m) (fresh, h) = elim (Bool-cases (j == k)) [
  | inl same ↦ rw same (delete-IsUnique k m h)
  | inr other ↦ rw other (ground (arith, lookup-delete j k m), delete-IsUnique k m h)
]

-- The user's variable in the place of the template's first one.
abbrev pub replaced : Option EnvVar → List EnvVar → List EnvVar
replaced none ts = ts
replaced (some u) [] = u ∷ []
replaced (some u) (t ∷ ts) = u ∷ ts

named-values :
    (k : String) (m : Dict EnvVar)
    → Named m
    → IsUnique m
    → named k (values m) ≡ replaced (lookup k m) []
unfolding lookup
named-values k [] h u = refl
named-values k ((j, x) ∷ m) (jx, h) (fresh, u) = elim (Bool-cases (j == k)) [
  | inl same ↦
      let kx : (x.name == k) ≡ true = rw (sym jx) same in
      let gone : lookup k m ≡ none = rw (sym ((eq_iff j k).0 same)) fresh in
      rw (same, kx, named-values k m h u, gone) refl
  | inr other ↦
      let kx : (x.name == k) ≡ false = rw (sym jx) other in rw (other, kx) (named-values k m h u)
]

named-override :
    (k : String) (ts : List EnvVar) (m : Dict EnvVar)
    → Named m
    → IsUnique m
    → named k (override ts m) ≡ replaced (lookup k m) (named k ts)
unfolding override
named-override k [] m h u = named-values k m h u
named-override k (t ∷ ts) m h u = elim (Option-cases (lookup t.name m)) [
  | inl e ↦
      rw (e, override)
        (elim (Bool-cases (t.name == k)) [
          | inl same ↦
              let gone : lookup k m ≡ none = rw (sym ((eq_iff t.name k).0 same)) e in
              rw (same, named-override k ts m h u, gone) refl
          | inr other ↦ rw other (named-override k ts m h u)
        ])
  | inr (v, e) ↦
      let later =
        named-override k ts (delete t.name m) (Named-delete t.name m h)
          (delete-IsUnique t.name m u) in
      let name : v.name ≡ t.name = name-lookup t.name v m h e in
      rw (e, override)
        (elim (Bool-cases (t.name == k)) [
          | inl same ↦
              let here : lookup k m ≡ some v = rw (sym ((eq_iff t.name k).0 same)) e in
              let there : (v.name == k) ≡ true = rw name same in
              rw (there, same, later, lookup-delete k t.name m, same, here) refl
          | inr other ↦
              let elsewhere : (v.name == k) ≡ false = rw name other in
              rw (elsewhere, other, later, lookup-delete k t.name m, other) refl
        ])
]

abbrev pick : String → EnvVar → Option EnvVar
pick k e = if e.name == k then some e else none

named-filter_map : (k : String) (es : List EnvVar) → named k es ≡ filter_map (pick k) es
unfolding filter_map Option-elim
named-filter_map k [] = refl
named-filter_map k (e ∷ es) = elim (Bool-cases (e.name == k)) [
  | inl same ↦ rw same (ap (λ l. e ∷ l) (named-filter_map k es))
  | inr other ↦ rw other (named-filter_map k es)
]

named-Perm : (k : String) (xs ys : List EnvVar) → Perm xs ys → Perm (named k xs) (named k ys)
named-Perm k xs ys h =
    rw (named-filter_map k xs, named-filter_map k ys) (Perm.filter_map (pick k) h)

-- The variables that a merged environment has under a name are, up to their order, those of the
-- template, the first of them replaced by the last variable that the user gives under the name;
-- where the template has none, that variable of the user; and where the user gives none, just the
-- template's. Assumed: sort.Slice permutes the list.
pub named-merge_environment_variables :
    (sort_slice : List EnvVar → List EnvVar)
    → ((xs : List EnvVar) → Perm (sort_slice xs) xs)
    → (k : String) (template user : List EnvVar)
    → Perm
        (named k (merge_environment_variables sort_slice template user))
        (replaced (find_last k user) (named k template))
unfolding merge_environment_variables lookup
named-merge_environment_variables sort_slice sorts k template user =
    let m = user_env_map [] user in
    let kept : named k (override template m) ≡ replaced (find_last k user) (named k template) =
      named-override k template m (Named-user_env_map user [] tt) (user_env_map-IsUnique user [] tt)
      ∙ ap (λ o. replaced o (named k template))
          (lookup-user_env_map k [] user ∙ or_nothing (find_last k user)) in
    subst (λ (l : List EnvVar). Perm (named k (sort_slice (override template m))) l) kept
      (named-Perm k (sort_slice (override template m)) (override template m) (sorts _))
  where
    or_nothing : (o : Option EnvVar) → or_else o none ≡ o
    or_nothing none = refl
    or_nothing (some x) = refl
