-- ===== src/Memory/Shards.antt =====
-- store/memory.go: the accesses to the entry of a key, as laws of one map over all shards.
use Prim.Native.Nat.{◌<◌}
use rateshield.Prelude.{
  ℕ, ◌≡◌, arith, none, some, Bytes, bytes_eq, bytes_eq_iff, bytes_eq_refl, ◌∙◌, lookup-insert,
  lookup-delete, if◌then◌else◌, ◌==◌, Distinct, insert-Distinct, delete-Distinct, Bool-cases, inl,
  inr,
}
use rateshield.Memory.{Memory, MemEntry, new, find, put, remove, get_shard, num_shards}

-- The index of a shard never leaves the array.
pub get_shard-lt : (key : Bytes) → get_shard key < num_shards
unfolding get_shard
get_shard-lt key = omega arith

module _ {F : Type 0} where
  -- A key stands once in each shard.
  abbrev pub IsWellFormed : Memory F → Type 0
  IsWellFormed m = (i : ℕ) → Distinct (m.shards i)

  pub find-put :
      (k j : Bytes) (e : MemEntry F) (m : Memory F)
      → find j (put k e m) ≡ (if bytes_eq k j then some e else find j m)
  unfolding find put
  find-put k j e m = ground (arith, bytes_eq_iff k j, lookup-insert k j e (m.shards (get_shard k)))

  pub find-put_self : (k : Bytes) (e : MemEntry F) (m : Memory F) → find k (put k e m) ≡ some e
  find-put_self k e m = find-put k k e m ∙ rw (bytes_eq_refl k)

  pub find-remove :
      (k j : Bytes) (m : Memory F) → find j (remove k m) ≡ (if bytes_eq k j then none else find j m)
  unfolding find remove
  find-remove k j m = ground (arith, bytes_eq_iff k j, lookup-delete k j (m.shards (get_shard k)))

  pub put-IsWellFormed :
      (k : Bytes) (e : MemEntry F) (m : Memory F) → IsWellFormed m → IsWellFormed (put k e m)
  unfolding put
  put-IsWellFormed k e m h i = elim (Bool-cases (get_shard k == i)) [
    | inl here ↦ rw here (insert-Distinct k e _ (h _))
    | inr there ↦ rw there (h i)
  ]

  pub remove-IsWellFormed : (k : Bytes) (m : Memory F) → IsWellFormed m → IsWellFormed (remove k m)
  unfolding remove
  remove-IsWellFormed k m h i = elim (Bool-cases (get_shard k == i)) [
    | inl here ↦ rw here (delete-Distinct k _ (h _))
    | inr there ↦ rw there (h i)
  ]

-- A new store is well-formed.
pub new-IsWellFormed : (F : Type 0) → IsWellFormed {F = F} new
unfolding new
new-IsWellFormed F i = tt
