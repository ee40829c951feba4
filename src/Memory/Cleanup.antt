-- ===== src/Memory/Cleanup.antt =====
-- store/memory.go: removeExpired, the step that the cleanup goroutine takes every 30 seconds until
-- the store is closed. It locks the shards one by one: a pass is the 64 steps `sweep_shard`, between
-- which other calls may run.
use rateshield.Prelude.{ℕ, zero, suc, if◌then◌else◌, ◌==◌, Bytes, Bool, List, [], ◌∷◌, ◌-◌}
use rateshield.Go.Time.{Time, after}
use rateshield.Memory.{Memory, Shard, MemEntry, num_shards}
pub mod Invisible
pub mod Goroutine

module _ {F : Type 0} where
  -- the inner loop: every entry of the map that has expired is deleted
  unfoldable pub sweep : Time → Shard F → Shard F
  sweep t [] = []
  sweep t ((key, e) ∷ s) =
      let rest = sweep t s in if after t e.expires_at then rest else (key, e) ∷ rest

  unfoldable pub sweep_shard : Time → ℕ → Memory F → Memory F
  sweep_shard t i m = record m { shards = λ j. if i == j then sweep t (m.shards i) else m.shards j }

  -- the outer loop, with `left` shards to go
  unfoldable pub sweep_from : Time → ℕ → Memory F → Memory F
  sweep_from t zero m = m
  sweep_from t (suc left) m = sweep_from t left (sweep_shard t (num_shards - suc left) m)

  unfoldable pub remove_expired : Time → Memory F → Memory F
  unfolding sweep_from sweep_shard
  remove_expired t m = sweep_from t num_shards m
