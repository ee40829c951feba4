-- ===== src/Memory.antt =====
-- store/memory.go: the sharded in-memory store. The 64 shards are a function from their indices. A
-- method runs under the lock of its shard, so it is one step. `find`, `put` and `remove` are the
-- accesses to `s.data` of the shard of a key.
use Prim.Native.Nat.{bit_xor}
use rateshield.Prelude.{
  ℕ, ◌*◌, ◌%◌, ℤ, pos, Bool, true, false, Option, none, some, List, [], ◌∷◌, Bytes, lookup, insert,
  delete, if◌then◌else◌, ◌==◌, two64,
}
use rateshield.Go.{Error, Context}
use rateshield.Go.Time.{Time, zero_time}
use rateshield.Go.Float.{Float64}
pub mod Shards
pub mod Window
pub mod Requests
pub mod FixedWindow
pub mod SlidingCounter
pub mod SlidingLog
pub mod TokenBucket
pub mod Legacy
pub mod Cleanup
pub mod Isolation
pub mod Backend

abbrev pub num_shards : ℕ
num_shards = 64

abbrev pub offset64 : ℕ
offset64 = 14695981039346656037

abbrev pub prime64 : ℕ
prime64 = 1099511628211

-- the loop of fnv1a
hash_from : ℕ → Bytes → ℕ
hash_from hash [] = hash
hash_from hash (byte ∷ key) = hash_from (bit_xor hash byte * prime64 % two64) key

unfoldable pub fnv1a : Bytes → ℕ
unfolding hash_from
fnv1a key = hash_from offset64 key

-- `fnv1a(key) & (numShards - 1)`, the low six bits
unfoldable pub get_shard : Bytes → ℕ
unfolding fnv1a
get_shard key = fnv1a key % num_shards

pub record MemEntry (F : Type 0) : Type 0 where
  pub tokens : F
  pub last_upd : Time
  pub count : ℤ
  pub prev_count : ℤ
  pub window_num : ℤ
  pub requests : List Time
  pub expires_at : Time

abbrev pub Shard : Type 0 → Type 0
Shard F = List (Bytes × MemEntry F)

pub record Memory (F : Type 0) : Type 0 where
  pub shards : ℕ → Shard F
  pub closed : Bool

module _ {F : Type 0} where
  -- NewMemory; the goroutine that it starts is Memory.Cleanup.Goroutine
  unfoldable pub new : Memory F
  new = record { shards = λ i. []; closed = false }

  set_shard : ℕ → Shard F → Memory F → Memory F
  set_shard i s m = record m { shards = λ j. if i == j then s else m.shards j }

  unfoldable pub find : Bytes → Memory F → Option (MemEntry F)
  find key m = lookup key (m.shards (get_shard key))

  unfoldable pub put : Bytes → MemEntry F → Memory F → Memory F
  unfolding set_shard
  put key e m = set_shard (get_shard key) (insert key e (m.shards (get_shard key))) m

  unfoldable pub remove : Bytes → Memory F → Memory F
  unfolding set_shard
  remove key m = set_shard (get_shard key) (delete key (m.shards (get_shard key))) m

  -- Reset
  unfoldable pub reset : Context → Bytes → Memory F → Option Error × Memory F
  reset ctx key m = (none, remove key m)

  -- Close
  unfoldable pub close : Memory F → Option Error × Memory F
  close m = if m.closed then (none, m) else (none, record m { closed = true })

module _ {F : Type 0} ⦃fl : Float64 F⦄ where
  -- `&memEntry{}`
  abbrev pub zero_entry : MemEntry F
  zero_entry = record {
    tokens = fl.of_int (pos 0);
    last_upd = zero_time;
    count = pos 0;
    prev_count = pos 0;
    window_num = pos 0;
    requests = [];
    expires_at = zero_time;
  }
