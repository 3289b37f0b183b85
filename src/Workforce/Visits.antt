-- ===== src/Workforce/Visits.antt =====
-- One call of traverseAgent: what it marks, and what it owes of the agents that it marks.
use ronak_agentk_runtime.Base.{
  ℕ, suc, ◌≤◌, ◌<◌, String, Bool, true, false, Option, none, some, List, [], ◌∷◌, Dict, insert, ◌≡◌,
  ◌≢◌, ◌⊎◌, inl, inr, refl, arith, eq_iff, ◌==◌, ◌||◌, Bool-cases, if◌then◌else◌, non_empty,
  lookup-insert,
}
use mathlib.Core.List.{Memᴰ}
use mathlib.Core.List.Memᴰ
use ronak_agentk_runtime.Kube.{ObjectReference, NamespacedName}
use ronak_agentk_runtime.Api.Agent.{SubAgent}
use ronak_agentk_runtime.Api.Resources.{TransitiveAgent}
use ronak_agentk_runtime.Refs.Cluster.{Cluster, target, show_key}
use ronak_agentk_runtime.Workforce.Traverse.{Walk, has, remote_agent, visit_sub, traverse_subs}
use ronak_agentk_runtime.Workforce.Reachable.{IsSucc}

pub has-insert {ℓ} :
    {V : Type ℓ} (k j : String) (v : V) (m : Dict V) → has j (insert k v m) ≡ (k == j || has j m)
has-insert k j v m = elim (Bool-cases (k == j)) [
  | inl e ↦ rw (lookup-insert k j v m, e)
  | inr e ↦ rw (lookup-insert k j v m, e)
]

-- Whether the walk has an agent's key.
abbrev pub seen : Walk → NamespacedName → Bool
seen w k = has (show_key k) w.agents

-- Keys are only added.
abbrev pub Grows : Walk → Walk → Type 0
Grows w w' = (s : String) → has s w.agents ≡ true → has s w'.agents ≡ true

-- The keys of a universe that are not seen yet.
abbrev pub unseen : List NamespacedName → Walk → ℕ
unseen [] w = 0
unseen (k ∷ u) w = if seen w k then unseen u w else suc (unseen u w)

pub unseen_mono : (u : List NamespacedName) (w w' : Walk) → Grows w w' → unseen u w' ≤ unseen u w
unseen_mono [] w w' g = omega arith
unseen_mono (k ∷ u) w w' g = ground (arith, g (show_key k), unseen_mono u w w' g)

pub unseen_strict :
    (w w' : Walk) (k : NamespacedName) {u : List NamespacedName}
    → Grows w w'
    → Memᴰ k u
    → seen w k ≡ false
    → seen w' k ≡ true
    → unseen u w' < unseen u w
unseen_strict w w' k g (Memᴰ.head {x} {xs} e) a b =
    let a' : seen w x ≡ false = (rw e at a) in
    let b' : seen w' x ≡ true = (rw e at b) in rw (a', b') (omega (arith, unseen_mono xs w w' g))
unseen_strict w w' k g (Memᴰ.tail {x} {xs} m) a b =
    ground (arith, g (show_key x), unseen_strict w w' k g m a b)

module _ (c : Cluster) (u : List NamespacedName) where
  -- What a call leaves: every agent that it marked has its sub-agents marked too.
  pub record IsDone (w w' : Walk) : Type 0 where
    pub grows : Grows w w'
    pub finished :
        (k : NamespacedName)
        → Memᴰ k u
        → seen w' k ≡ true
        → (seen w k ≡ true) ⊎ ((j : NamespacedName) → IsSucc c k j → seen w' j ≡ true)

  pub IsDone-refl : (w : Walk) → IsDone w w
  IsDone-refl w = record { grows = λ s h. h; finished = λ k m h. inl h }

  pub IsDone-trans : (w v w' : Walk) → IsDone w v → IsDone v w' → IsDone w w'
  IsDone-trans w v w' a b = record {
    grows = λ s h. b.grows s (a.grows s h);
    finished = λ k m h. elim (b.finished k m h) [
      | inl hv ↦ elim (a.finished k m hv) [
        | inl hw ↦ inl hw
        | inr f ↦ inr (λ j s. b.grows (show_key j) (f j s))
      ]
      | inr f ↦ inr f
    ];
  }

  Grows-insert :
      (w : Walk) (k : String) (v : TransitiveAgent)
      → Grows w (record w { agents = insert k v w.agents })
  Grows-insert w k v s h = rw (has-insert k s v w.agents) (ground (arith, h))

  IsDone-remote :
      (w : Walk) (url : String) (v : TransitiveAgent)
      → ((j : NamespacedName) → Memᴰ j u → url ≢ show_key j)
      → IsDone w (record w { agents = insert url v w.agents })
  IsDone-remote w url v away = record {
    grows = Grows-insert w url v;
    finished = λ k m h.
        let h' = (rw (has-insert url (show_key k) v w.agents) at h) in
        inl (ground (arith, h', eq_iff url (show_key k), away k m));
  }

  -- What is assumed of the recursive call, at fuel `f`.
  abbrev pub Visiting : ℕ → (NamespacedName → Walk → Walk) → Type 0
  Visiting f visit =
      (j : NamespacedName) (w : Walk)
      → Memᴰ j u
      → unseen u w < f
      → IsDone w (visit j w) × (seen (visit j w) j ≡ true)

  module _ (f : ℕ) (visit : NamespacedName → Walk → Walk) (ns : String)
      (rec : Visiting f visit) where
    -- What is assumed of a sub-agent: it names a key of the universe, or a URL apart from it.
    abbrev pub IsFit : Option ObjectReference → String → Type 0
    IsFit (some ref) url = Memᴰ (target ref ns) u
    IsFit none url = non_empty url ≡ true → (j : NamespacedName) → Memᴰ j u → url ≢ show_key j

    abbrev pub IsMarked : Option ObjectReference → Walk → Type 0
    IsMarked none w = Unit {0}
    IsMarked (some ref) w = seen w (target ref ns) ≡ true

    visit_sub_lem :
        (s : SubAgent) (o : Option ObjectReference) (w : Walk)
        → IsFit o s.url
        → unseen u w < f
        → IsDone w (visit_sub visit ns s o w) × IsMarked o (visit_sub visit ns s o w)
    visit_sub_lem s (some ref) w fit h = rec (target ref ns) w fit h
    visit_sub_lem s none w fit h = elim (Bool-cases (non_empty s.url)) [
      | inl e ↦ rw e (IsDone-remote w s.url (remote_agent s) (fit e), tt)
      | inr e ↦ rw e (IsDone-refl w, tt)
    ]

    IsMarked-mono :
        (o : Option ObjectReference) (w w' : Walk) → Grows w w' → IsMarked o w → IsMarked o w'
    IsMarked-mono none w w' g h = tt
    IsMarked-mono (some ref) w w' g h = g _ h

    pub traverse_subs_lem :
        (subs : List SubAgent) (w : Walk)
        → ((s : SubAgent) → Memᴰ s subs → IsFit s.agent_ref s.url)
        → unseen u w < f
        → IsDone w (traverse_subs visit ns subs w)
          × ((s : SubAgent) → Memᴰ s subs → IsMarked s.agent_ref (traverse_subs visit ns subs w))
    unfolding traverse_subs
    traverse_subs_lem [] w fit h = (IsDone-refl w, λ s m. elim m [ ])
    traverse_subs_lem (s ∷ rest) w fit h =
        let first = visit_sub_lem s s.agent_ref w (fit s (Memᴰ.head refl)) h in
        let v = visit_sub visit ns s s.agent_ref w in
        let later =
          traverse_subs_lem rest v (λ t m. fit t (Memᴰ.tail m))
            (omega (arith, unseen_mono u w v first.0.grows)) in
        (
          IsDone-trans w v (traverse_subs visit ns rest v) first.0 later.0,
          λ t m. elim (Memᴰ.cases_cons m) [
            | inl e ↦
                rw e (
                  IsMarked-mono s.agent_ref v (traverse_subs visit ns rest v) later.0.grows first.1)
            | inr m' ↦ later.1 t m'
          ],
        )
