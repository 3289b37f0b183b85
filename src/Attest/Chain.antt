-- ===== src/Attest/Chain.antt =====
-- The audit trail of merkle.go: what a root says of the checkpoints behind it.
use Prim.Native.String.{◌++◌}
use ronak_agentk_runtime.Base.{
  String, true, false, List, [], ◌∷◌, map, length, is_empty, ◌==◌, eq_iff, ◌≡◌, ◌≢◌, ◌⊎◌, inl, inr,
  refl, ap, sym, ◌∙◌, arith, Bool-cases,
}
use ronak_agentk_runtime.Attest.Bars.{bar_free, joined_parts}
use ronak_agentk_runtime.Attest.Checkpoint.{
  Event, checkpoint_data, compute_checkpoint, compute_merkle_root, roll,
}

-- What hex.EncodeToString gives: a text with no '|', and not the empty one.
pub record IsDigest (s : String) : Type 0 where
  pub free : bar_free s ≡ true
  pub full : is_empty s ≡ false

module _ (hash : String → String) where
  abbrev pub Collision : Type 0
  Collision = (x : String) × (y : String) × (x ≢ y) × (hash x ≡ hash y)

  pull : (x y : String) → hash x ≡ hash y → (x ≡ y) ⊎ Collision
  pull x y e = elim (Bool-cases (x == y)) [
    | inl same ↦ inl ((eq_iff x y).0 same)
    | inr other ↦ inr (x, y, (λ h. cc ((eq_iff x y).1 h, other)), e)
  ]

  compute_merkle_root_lem :
      (r c : String) → IsDigest r → compute_merkle_root hash r c ≡ hash (r ++ "|" ++ c)
  unfolding compute_merkle_root
  compute_merkle_root_lem r c d = rw d.full

  module _ (hex : (s : String) → IsDigest (hash s)) where
    -- One step back: equal roots have equal predecessors and checkpoints.
    step_back :
        (r q : String) (e d : Event)
        → IsDigest r
        → IsDigest q
        → hash (r ++ "|" ++ compute_checkpoint hash e)
          ≡ hash (q ++ "|" ++ compute_checkpoint hash d)
        → ((r ≡ q) × (checkpoint_data e ≡ checkpoint_data d)) ⊎ Collision
    unfolding compute_checkpoint
    step_back r q e d hr hq h = elim (pull _ _ h) [
      | inr c ↦ inr c
      | inl same ↦
          let (rq, cps) = joined_parts r q _ _ hr.free hq.free same in
          elim (pull _ _ cps) [ inl data' ↦ inl (rq, data') | inr c ↦ inr c ]
    ]

    roll_back :
        (es ds : List Event) (r q : String)
        → IsDigest r
        → IsDigest q
        → length es ≡ length ds
        → roll hash r es ≡ roll hash q ds
        → ((r ≡ q) × (map checkpoint_data es ≡ map checkpoint_data ds)) ⊎ Collision
    unfolding roll
    roll_back [] [] r q hr hq n h = inl (h, refl)
    roll_back [] (d ∷ ds) r q hr hq n h = absurd (omega arith)
    roll_back (e ∷ es) [] r q hr hq n h = absurd (omega arith)
    roll_back (e ∷ es) (d ∷ ds) r q hr hq n h =
        let left = compute_merkle_root_lem r (compute_checkpoint hash e) hr in
        let right = compute_merkle_root_lem q (compute_checkpoint hash d) hq in
        let h' = sym (ap (λ x. roll hash x es) left) ∙ h ∙ ap (λ x. roll hash x ds) right in
        elim (roll_back es ds (hash (r ++ "|" ++ compute_checkpoint hash e))
          (hash (q ++ "|" ++ compute_checkpoint hash d)) (hex _) (hex _) (omega arith) h') [
            | inr c ↦ inr c
            | inl (roots, later) ↦ elim (step_back r q e d hr hq roots) [
              | inr c ↦ inr c
              | inl (rq, data') ↦ inl (rq, cc (data', later))
            ]
          ]

    -- Two histories of as many reconciliations that start at one root, the empty root of a new
    -- agent or a digest, and end at one root have checkpointed the same texts, or else two texts
    -- are known that SHA-256 maps to one digest.
    pub roll-binds :
        (r : String) (es ds : List Event)
        → (r ≡ "") ⊎ IsDigest r
        → length es ≡ length ds
        → roll hash r es ≡ roll hash r ds
        → (map checkpoint_data es ≡ map checkpoint_data ds) ⊎ Collision
    unfolding roll compute_merkle_root compute_checkpoint
    roll-binds r es ds (inr d) n h = elim (roll_back es ds r r d d n h) [
      | inl (_, same) ↦ inl same
      | inr c ↦ inr c
    ]
    roll-binds r [] [] (inl empty) n h = inl refl
    roll-binds r [] (d ∷ ds) (inl empty) n h = absurd (omega arith)
    roll-binds r (e ∷ es) [] (inl empty) n h = absurd (omega arith)
    roll-binds r (e ∷ es) (d ∷ ds) (inl empty) n h =
        let h' : roll hash (hash (checkpoint_data e)) es ≡ roll hash (hash (checkpoint_data d)) ds =
          (rw empty at h) in
        elim (roll_back es ds _ _ (hex _) (hex _) (omega arith) h') [
          | inr c ↦ inr c
          | inl (first, later) ↦ elim (pull _ _ first) [
            | inr c ↦ inr c
            | inl data' ↦ inl (cc (data', later))
          ]
        ]
