-- ===== src/Memory/Legacy/Counting.antt =====
-- store/memory.go: what the calls of Increment for one key return, one after the other.
use rateshield.Prelude.{
  ℕ, zero, suc, ◌+◌, ◌≤◌, ℤ, pos, ◌+ℤ◌, ◌<ℤ◌, ◌≡◌, refl, ap, ap₂, ◌∙◌, arith, Bytes, none, some,
  true, plus_pos, int64, int64-id, List, [], ◌∷◌,
}
use rateshield.Go.{Context, Outcome, ok}
use rateshield.Go.Time.{Time, Duration, Clock, now, later, add, before}
use rateshield.Go.Float.{Float64}
use rateshield.Memory.{Memory, MemEntry, find, put}
use rateshield.Memory.Shards.{find-put_self}
use rateshield.Memory.Legacy.{increment, increment_entry}

-- `k` numbers in a row, from `a` on.
unfoldable pub counts_from : (a k : ℕ) → List (Outcome ℤ)
counts_from a zero = []
counts_from a (suc k) = ok (pos a) ∷ counts_from (suc a) k

module _ {F : Type 0} ⦃fl : Float64 F⦄ where
  -- What `k` calls of Increment for a key return.
  unfoldable pub increments : ℕ → Context → Bytes → Duration → Clock → Memory F → List (Outcome ℤ)
  increments zero ctx key ttl clock m = []
  increments (suc k) ctx key ttl clock m =
      let (count, m', clock') = increment ctx key ttl clock m in
      count ∷ increments k ctx key ttl clock' m'

  -- A live entry that counts `a` counts on.
  increments-live :
      (k a : ℕ) (ctx : Context) (key : Bytes) (ttl : Duration) (end : Time) (clock : Clock)
      (m : Memory F) (e : MemEntry F)
      → find key m ≡ some e
      → e.count ≡ pos a
      → e.expires_at ≡ end
      → ((i : ℕ) → clock i <ℤ end)
      → a + k ≤ 9223372036854775807
      → increments k ctx key ttl clock m ≡ counts_from (suc a) k
  unfolding increments counts_from increment increment_entry
  increments-live zero a ctx key ttl end clock m e found counted expires early fits = refl
  increments-live (suc k) a ctx key ttl end clock m e found counted expires early fits =
      let young : before (now clock) e.expires_at ≡ true = ground (arith, early 0) in
      let next : int64 (e.count +ℤ pos 1) ≡ pos (suc a) =
        rw (counted, plus_pos a 1)
          (int64-id (pos (a + 1)) (record { above = omega arith; below = omega arith })
            ∙ ap pos (omega arith)) in
      let e' : MemEntry F = record e { count = int64 (e.count +ℤ pos 1); last_upd = now clock } in
      rw (found, young)
        (ap₂ ◌∷◌ (ap ok next) (
          increments-live k (suc a) ctx key ttl end (later clock) (put key e' m) e'
            (find-put_self key e' m) next expires (λ i. early (suc i)) (omega arith)))

  -- For a key with no entry yet, `k` calls of Increment, one after the other, return the numbers from
  -- 1 to `k`, as long as the clock does not reach the reading at the first call plus the TTL, and `k`
  -- is an int64.
  pub increments_count_up :
      (k : ℕ) (ctx : Context) (key : Bytes) (ttl : Duration) (clock : Clock) (m : Memory F)
      → find key m ≡ none
      → ((i : ℕ) → clock i <ℤ add (now clock) ttl)
      → k ≤ 9223372036854775807
      → increments k ctx key ttl clock m ≡ counts_from 1 k
  unfolding increments counts_from increment increment_entry
  increments_count_up zero ctx key ttl clock m empty early fits = refl
  increments_count_up (suc k) ctx key ttl clock m empty early fits = rw empty (
      ap (◌∷◌ (ok (pos 1))) (
        increments-live k 1 ctx key ttl (add (now clock) ttl) (later clock) (put key _ m) _
          (find-put_self key _ m) refl refl (λ i. early (suc i)) (omega arith)))
