-- ===== src/Attest/Checkpoint.antt =====
-- internal/merkle/merkle.go. SHA-256, printed in hexadecimal, is a parameter.
use ronak_agentk_runtime.Base.{String, List, [], ◌∷◌, is_empty, if◌then◌else◌}
use ronak_agentk_runtime.Base.Int.{ℤ, show_int}
use Prim.Native.String.{◌++◌}

-- What a checkpoint is computed from: the spec's JSON, the time and the count.
pub record Event : Type 0 where
  pub spec_json : String
  pub timestamp : String
  pub count : ℤ

-- fmt.Sprintf("%s|%s|%d", …)
unfoldable pub checkpoint_data : Event → String
unfolding show_int
checkpoint_data e = e.spec_json ++ "|" ++ e.timestamp ++ "|" ++ show_int e.count

module _ (hash_bytes : String → String) where
  unfoldable pub compute_checkpoint : Event → String
  unfolding checkpoint_data
  compute_checkpoint e = hash_bytes (checkpoint_data e)

  unfoldable pub compute_merkle_root : String → String → String
  compute_merkle_root previous_root new_checkpoint =
      if is_empty previous_root
      then new_checkpoint
      else hash_bytes (previous_root ++ "|" ++ new_checkpoint)

  -- The root after the checkpoints of several reconciliations.
  unfoldable pub roll : String → List Event → String
  unfolding compute_checkpoint compute_merkle_root
  roll root [] = root
  roll root (e ∷ es) = roll (compute_merkle_root root (compute_checkpoint e)) es
