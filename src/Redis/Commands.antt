-- ===== src/Redis/Commands.antt =====
-- The commands of a Redis server that the scripts of store/redis.go call, as an interface, and what
-- Redis documents of those that the theorems use. A command runs at a reading of the server's clock,
-- in milliseconds.
use rateshield.Prelude.{
  ℤ, pos, ◌+ℤ◌, ◌-ℤ◌, ◌≤ℤ◌, ◌≡◌, ltb_ℤ, leb_ℤ, Bool, true, false, Option, none, some, List, [], ◌∷◌,
  Bytes, bytes_eq, if◌then◌else◌, InInt64,
}
use rateshield.Go.{Outcome, ok}

-- What a key holds: a string that is a number, a hash with the fields `tokens` and `last_update`, or
-- a sorted set, as its members with their scores.
pub data Value (F : Type 0) : Type 0 where
  number : ℤ → Value F
  bucket : (tokens : F) (last_update : ℤ) → Value F
  sorted : List (Bytes × ℤ) → Value F

-- The value under a key, and the instant up to which it is kept, if it has one.
abbrev pub Stored : Type 0 → Type 0
Stored F = Option (Value F × Option ℤ)

pub record Commands (F : Type 0) : Type 1 where
  pub D : Type 0
  -- INCRBY and DECRBY; an error of a command aborts the script
  pub incr_by : (t : ℤ) → Bytes → ℤ → D → Outcome ℤ × D
  pub decr_by : (t : ℤ) → Bytes → ℤ → D → Outcome ℤ × D
  pub pexpire : (t : ℤ) → Bytes → (ms : ℤ) → D → D
  -- GET of a number
  pub get : (t : ℤ) → Bytes → D → Outcome (Option ℤ) × D
  -- HMGET and HSET of the fields `tokens` and `last_update`
  pub hmget : (t : ℤ) → Bytes → D → Outcome (Option (F × ℤ)) × D
  pub hset : (t : ℤ) → Bytes → F → ℤ → D → Outcome ℤ × D
  -- ZREMRANGEBYSCORE from -inf, ZCARD, ZADD, and the score that ZRANGE of one place WITHSCORES gives
  pub zremrangebyscore : (t : ℤ) → Bytes → (max : ℤ) → D → Outcome ℤ × D
  pub zcard : (t : ℤ) → Bytes → D → Outcome ℤ × D
  pub zadd : (t : ℤ) → Bytes → (score : ℤ) → (member : Bytes) → D → Outcome ℤ × D
  pub zrange : (t : ℤ) → Bytes → (place : ℤ) → D → Outcome (Option ℤ) × D

module _ {F : Type 0} where
  abbrev live_until : (t : ℤ) → Value F → Option ℤ → Stored F
  live_until t v none = some (v, none)
  live_until t v (some deadline) = if ltb_ℤ deadline t then none else some (v, some deadline)

  -- What of it is still there at `t`.
  abbrev pub live_at : (t : ℤ) → Stored F → Stored F
  live_at t none = none
  live_at t (some (v, deadline)) = live_until t v deadline

  -- A key that is missing counts as zero, and as an empty set.
  abbrev pub value_of : Stored F → ℤ
  value_of (some (number v, deadline)) = v
  value_of _ = pos 0

  abbrev pub members_of : Stored F → List (Bytes × ℤ)
  members_of (some (sorted ms, deadline)) = ms
  members_of _ = []

  abbrev pub deadline_of : Stored F → Option ℤ
  deadline_of none = none
  deadline_of (some (v, deadline)) = deadline

  -- Whether a key can be used as a number, or as a sorted set.
  abbrev pub is_number : Stored F → Bool
  is_number none = true
  is_number (some (number v, deadline)) = true
  is_number _ = false

  abbrev pub is_sorted : Stored F → Bool
  is_sorted none = true
  is_sorted (some (sorted ms, deadline)) = true
  is_sorted _ = false

  -- The number under a key, if it is there.
  abbrev pub number_in : Stored F → Option ℤ
  number_in (some (number v, deadline)) = some v
  number_in _ = none

  -- The fields of the bucket under a key, if it is there.
  abbrev pub bucket_in : Stored F → Option (F × ℤ)
  bucket_in (some (bucket tokens last_update, deadline)) = some (tokens, last_update)
  bucket_in _ = none

  abbrev pub is_bucket : Stored F → Bool
  is_bucket none = true
  is_bucket (some (bucket tokens last_update, deadline)) = true
  is_bucket _ = false

  abbrev pub with_deadline : ℤ → Stored F → Stored F
  with_deadline t none = none
  with_deadline t (some (v, deadline)) = some (v, some t)

  -- A set without members is no key.
  abbrev pub set_of : List (Bytes × ℤ) → Option ℤ → Stored F
  set_of [] deadline = none
  set_of (m ∷ ms) deadline = some (sorted (m ∷ ms), deadline)

-- The members with a score above `max`, and the scores.
abbrev pub scored_above : ℤ → List (Bytes × ℤ) → List (Bytes × ℤ)
scored_above max [] = []
scored_above max ((m, score) ∷ ms) =
    let rest = scored_above max ms in if leb_ℤ score max then rest else (m, score) ∷ rest

-- Whether a member is in a set.
abbrev pub has_member : Bytes → List (Bytes × ℤ) → Bool
has_member m [] = false
has_member m ((m', score) ∷ ms) = if bytes_eq m m' then true else has_member m ms

-- What Redis documents: a counter takes a sum in the range of int64 and keeps its deadline; GET reads
-- a number and changes nothing; PEXPIRE sets a deadline; no other key changes.
pub record IsRedis {F : Type 0} (c : Commands F) : Type 0 where
  pub read : Bytes → c.D → Stored F
  pub incr_by-ok :
      (t : ℤ) (k : Bytes) (n : ℤ) (d : c.D)
      → is_number (live_at t (read k d)) ≡ true
      → InInt64 (value_of (live_at t (read k d)) +ℤ n)
      → (c.incr_by t k n d).0 ≡ ok (value_of (live_at t (read k d)) +ℤ n)
  pub read-incr_by :
      (t : ℤ) (k : Bytes) (n : ℤ) (d : c.D) (j : Bytes)
      → is_number (live_at t (read k d)) ≡ true
      → InInt64 (value_of (live_at t (read k d)) +ℤ n)
      → read j (c.incr_by t k n d).1 ≡ (
          if bytes_eq k j
          then some
              (number (value_of (live_at t (read k d)) +ℤ n), deadline_of (live_at t (read k d)))
          else read j d)
  pub decr_by-ok :
      (t : ℤ) (k : Bytes) (n : ℤ) (d : c.D)
      → is_number (live_at t (read k d)) ≡ true
      → InInt64 (value_of (live_at t (read k d)) -ℤ n)
      → (c.decr_by t k n d).0 ≡ ok (value_of (live_at t (read k d)) -ℤ n)
  pub read-decr_by :
      (t : ℤ) (k : Bytes) (n : ℤ) (d : c.D) (j : Bytes)
      → is_number (live_at t (read k d)) ≡ true
      → InInt64 (value_of (live_at t (read k d)) -ℤ n)
      → read j (c.decr_by t k n d).1 ≡ (
          if bytes_eq k j
          then some
              (number (value_of (live_at t (read k d)) -ℤ n), deadline_of (live_at t (read k d)))
          else read j d)
  pub read-pexpire :
      (t : ℤ) (k : Bytes) (ms : ℤ) (d : c.D) (j : Bytes)
      → pos 1 ≤ℤ ms
      → read j (c.pexpire t k ms d)
        ≡ (if bytes_eq k j then with_deadline (t +ℤ ms) (live_at t (read k d)) else read j d)
  pub get-ok :
      (t : ℤ) (k : Bytes) (d : c.D)
      → is_number (live_at t (read k d)) ≡ true
      → (c.get t k d).0 ≡ ok (number_in (live_at t (read k d)))
  pub read-get : (t : ℤ) (k : Bytes) (d : c.D) (j : Bytes) → read j (c.get t k d).1 ≡ read j d
