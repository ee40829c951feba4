-- ===== src/Redis/Sets.antt =====
-- The commands of a Redis server on sorted sets that swlScript of store/redis.go calls: what Redis
-- documents of them.
use rateshield.Prelude.{
  suc, ◌-◌, ℤ, pos, negsuc, ◌≡◌, true, false, Option, none, some, List, ◌∷◌, ◌++◌, Bytes, bytes_eq,
  ltb, if◌then◌else◌, length, get_elem?,
}
use mathlib.Core.Option
use rateshield.Go.{ok}
use rateshield.Redis.Commands.{
  Commands, IsRedis, sorted, live_at, members_of, deadline_of, is_sorted, set_of, scored_above,
  has_member,
}

-- The score at a place of a set, counted from its end if the place is negative.
abbrev pub score_at : ℤ → List (Bytes × ℤ) → Option ℤ
score_at (pos i) ms = Option.map (λ (m : Bytes × ℤ). m.1) (get_elem? ms i)
score_at (negsuc i) ms =
    if ltb i (length ms)
    then Option.map (λ (m : Bytes × ℤ). m.1) (get_elem? ms (length ms - suc i))
    else none

-- A set gives up its members up to a score, tells how many it has and what the score at a place is,
-- and takes a new member somewhere; a set that loses its last member is no key any more; no other key
-- changes.
pub record HasSets {F : Type 0} (c : Commands F) (redis : IsRedis c) : Type 0 where
  pub zremrangebyscore-ok :
      (t : ℤ) (k : Bytes) (max : ℤ) (d : c.D)
      → is_sorted (live_at t (redis.read k d)) ≡ true
      → let ms = members_of (live_at t (redis.read k d)) in
        (c.zremrangebyscore t k max d).0 ≡ ok (pos (length ms - length (scored_above max ms)))
  pub read-zremrangebyscore :
      (t : ℤ) (k : Bytes) (max : ℤ) (d : c.D) (j : Bytes)
      → is_sorted (live_at t (redis.read k d)) ≡ true
      → let live = live_at t (redis.read k d) in
        redis.read j (c.zremrangebyscore t k max d).1 ≡ (
          if bytes_eq k j
          then set_of (scored_above max (members_of live)) (deadline_of live)
          else redis.read j d)
  pub zcard-ok :
      (t : ℤ) (k : Bytes) (d : c.D)
      → is_sorted (live_at t (redis.read k d)) ≡ true
      → (c.zcard t k d).0 ≡ ok (pos (length (members_of (live_at t (redis.read k d)))))
  pub read-zcard :
      (t : ℤ) (k : Bytes) (d : c.D) (j : Bytes) → redis.read j (c.zcard t k d).1 ≡ redis.read j d
  pub zadd-ok :
      (t : ℤ) (k : Bytes) (score : ℤ) (m : Bytes) (d : c.D)
      → is_sorted (live_at t (redis.read k d)) ≡ true
      → has_member m (members_of (live_at t (redis.read k d))) ≡ false
      → (c.zadd t k score m d).0 ≡ ok (pos 1)
  pub read-zadd :
      (t : ℤ) (k : Bytes) (score : ℤ) (m : Bytes) (d : c.D)
      → is_sorted (live_at t (redis.read k d)) ≡ true
      → has_member m (members_of (live_at t (redis.read k d))) ≡ false
      → let live = live_at t (redis.read k d) in
        (below : List (Bytes × ℤ)) × (above : List (Bytes × ℤ)) × (members_of live ≡ below ++ above)
        × ((j : Bytes)
            → redis.read j (c.zadd t k score m d).1 ≡ (
                if bytes_eq k j
                then some (sorted (below ++ (m, score) ∷ above), deadline_of live)
                else redis.read j d))
  pub zrange-ok :
      (t : ℤ) (k : Bytes) (place : ℤ) (d : c.D)
      → is_sorted (live_at t (redis.read k d)) ≡ true
      → (c.zrange t k place d).0 ≡ ok (score_at place (members_of (live_at t (redis.read k d))))
  pub read-zrange :
      (t : ℤ) (k : Bytes) (place : ℤ) (d : c.D) (j : Bytes)
      → redis.read j (c.zrange t k place d).1 ≡ redis.read j d
