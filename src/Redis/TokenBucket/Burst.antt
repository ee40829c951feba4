-- ===== src/Redis/TokenBucket/Burst.antt =====
-- store/redis.go, store/memory.go: a burst of requests at one instant against AllowTokenBucket of the
-- two stores.
use rateshield.Prelude.{
  ℕ, ◌+◌, ◌-◌, ◌*◌, ◌≤◌, ◌≡◌, refl, sym, ap, ap₂, ◌∙◌, arith, ℤ, pos, ◌+ℤ◌, ◌-ℤ◌, ◌≤ℤ◌, ltb_ℤ,
  +ℤ_parts, eq_of_parts, int_laws, Bool, true, false, none, some, List, [], ◌∷◌, ◌++◌, Bytes, All,
  leb, if◌then◌else◌, Bool-cases, inl, inr,
}
use rateshield.Go.Float.{Float64, IsFloat64}
use rateshield.Go.Time.{Time, Duration, millisecond}
use rateshield.Memory.{Memory, find}
use rateshield.Memory.Requests.{lets_through}
use rateshield.Memory.TokenBucket.Burst.{
  promised, covers-leb, taken-minus, not_after_nought, token_bucket_burst_is_exact,
}
use rateshield.Memory.TokenBucket.Burst as InMemory
use rateshield.Memory.Window.Order.{InEra, IsWindow, millis, width, millis_bound}
use rateshield.Redis.{Redis, allow_token_bucket}
use rateshield.Redis.Commands.{Commands, IsRedis, Stored, bucket, live_at, bucket_in, is_bucket}
use rateshield.Redis.Hashes.{HasHashes}
use rateshield.Redis.FixedWindow.History.{IsNear}
use rateshield.Redis.Scripts.Bucket.{bucket_of}
use rateshield.Redis.Server.{Serves, exact_floats}
use rateshield.Redis.TokenBucket.Server.{ServesBucket, last_update_of, call-start}

module _ {F : Type 0} ⦃fl : Float64 F⦄ where
  -- What is stored in a burst at `a`, of which `used` units were admitted.
  abbrev pub Tracks : (capacity used a ttl skew : ℕ) → Stored F → Type 0
  Tracks capacity used a ttl skew none = used ≡ 0
  Tracks capacity used a ttl skew (some (bucket x last, some deadline)) =
      (x ≡ fl.of_int (pos (capacity - used)))
      × (last ≡ pos a)
      × (pos (a + ttl) ≤ℤ deadline +ℤ pos skew)
  Tracks capacity used a ttl skew _ = ⊥

module _ {F : Type 0} ⦃fl : Float64 F⦄ (laws : IsFloat64 F) where
  -- No time passes between two requests of a burst.
  refilled_now : (rate x : F) (capacity a : ℤ) → bucket_of rate capacity a (some (x, a)) ≡ (x, a)
  refilled_now rate x capacity a =
      let none_passed : a -ℤ a ≡ pos 0 = eq_of_parts _ _ (omega int_laws) in
      rw (none_passed, laws.fdiv_zero (pos 1000) (omega arith) (omega arith), not_after_nought laws)
        refl

  -- A run starts from what is left, and the bucket has not expired.
  starts :
      (rate : F) (capacity used a ttl skew : ℕ) (t : ℤ) (o : Stored F)
      → IsNear skew a t
      → 2 * skew ≤ ttl
      → Tracks capacity used a ttl skew o
      → let fields = bucket_in (live_at t o) in
        (is_bucket (live_at t o) ≡ true)
        × (pos 0 ≤ℤ last_update_of fields)
        × (last_update_of fields ≤ℤ pos a)
        × (bucket_of rate (pos capacity) (pos a) fields
            ≡ (fl.of_int (pos (capacity - used)), pos a))
  starts rate capacity used a ttl skew t none near long k =
      (refl, omega arith, omega arith, rw k (ap (λ x. (fl.of_int (pos x), pos a)) (omega arith)))
  starts rate capacity used a ttl skew t (some (bucket x last, some deadline)) near long k =
      let early = near.early in
      let young : ltb_ℤ deadline t ≡ false =
        ground (arith, k.2, early, +ℤ_parts deadline (pos skew)) in
      rw (young, k.0, k.1)
        (refl, omega arith, omega arith, refilled_now rate _ (pos capacity) (pos a))
  starts rate capacity used a ttl skew t _ near long k = absurd k

module _ {F : Type 0} ⦃fl : Float64 F⦄ (laws : IsFloat64 F) (c : Commands F) (redis : IsRedis c)
    (hashes : HasHashes c redis) (skew : ℕ) (r : Redis F) (serves : Serves c redis r.client skew)
    (runs : ServesBucket c redis r.client skew serves) (key : Bytes) (rate : F) (capacity : ℕ)
    (ttl : Duration) (t : Time) where
  open serves use {data_of, clock_of, arrive, data_of-arrive, clock_of-arrive}

  -- What the store decides about requests of a key that all come at `t`.
  unfoldable pub decided : r.client.S → List ℕ → List Bool
  decided s [] = []
  decided s (n ∷ ns) =
      let (res, s', clock') =
        allow_token_bucket r none key rate (pos capacity) (pos n) ttl (λ _. t) (arrive t s) in
      lets_through res ∷ decided s' ns

  abbrev Holds : (used : ℕ) → r.client.S → Type 0
  Holds used s =
      Tracks capacity used (millis t) (width ttl) skew (redis.read (r.prefix ++ key) (data_of s))

  call-Holds :
      (used n : ℕ) (s : r.client.S)
      → IsWindow ttl
      → millisecond ≤ℤ ttl
      → 2 * skew ≤ width ttl
      → InEra t
      → capacity ≤ exact_floats
      → used ≤ capacity
      → n ≤ exact_floats
      → Holds used s
      → let (res, s', clock') =
          allow_token_bucket r none key rate (pos capacity) (pos n) ttl (λ _. t) (arrive t s) in
        let room = leb (used + n) capacity in
        (lets_through res ≡ room) × Holds (if room then used + n else used) s'
  call-Holds used n s w long spare era small le few holds =
      let s1 = arrive t s in
      let a = millis t in
      let near = clock_of-arrive t s era in
      let late = near.late in
      let key' = r.prefix ++ key in
      let holds' : Tracks capacity used a (width ttl) skew (redis.read key' (data_of s1)) =
        rw (data_of-arrive t s) holds in
      let (kind, low, high, first) =
        starts laws rate capacity used a (width ttl) skew (clock_of s1) _ near spare holds' in
      let (allowed, after) =
        call-start c redis hashes skew r serves runs key rate capacity ttl t n s w long era small
          few kind low (omega (arith, high, millis_bound t era)) in
      let fields = bucket_in (live_at (clock_of s1) (redis.read key' (data_of s1))) in
      let test : fl.fle (fl.of_int (pos n)) (bucket_of rate (pos capacity) (pos a) fields).0
          ≡ leb (used + n) capacity =
        ap (λ (x : F × ℤ). fl.fle (fl.of_int (pos n)) x.0) first
        ∙ covers-leb laws capacity used n small le few in
      let kept : pos (a + width ttl) ≤ℤ (clock_of s1 +ℤ pos (width ttl)) +ℤ pos skew = omega (
        arith,
        late,
        +ℤ_parts (clock_of s1) (pos (width ttl)),
        +ℤ_parts (clock_of s1) (pos skew),
        +ℤ_parts (clock_of s1 +ℤ pos (width ttl)) (pos skew),
      ) in
      (
        allowed ∙ test,
        rw (after, test, first)
            (elim (Bool-cases (leb (used + n) capacity)) [
              | inl room ↦ rw room (taken-minus laws capacity used n small room, refl, kept)
              | inr full ↦ rw full (refl, refl, kept)
            ]),
      )

  decided-promised :
      (used : ℕ) (s : r.client.S) (ns : List ℕ)
      → IsWindow ttl
      → millisecond ≤ℤ ttl
      → 2 * skew ≤ width ttl
      → InEra t
      → capacity ≤ exact_floats
      → used ≤ capacity
      → All (λ n. n ≤ exact_floats) ns
      → Holds used s
      → decided s ns ≡ promised capacity used ns
  unfolding decided promised
  decided-promised used s [] w long spare era small le few holds = refl
  decided-promised used s (n ∷ ns) w long spare era small le (f, few) holds =
      let s' =
        (allow_token_bucket r none key rate (pos capacity) (pos n) ttl (λ i. t) (arrive t s)).1 in
      let (same, holds') = call-Holds used n s w long spare era small le f holds in
      let room = leb (used + n) capacity in
      ap₂ ◌∷◌ same (
        decided-promised (if room then used + n else used) s' ns w long spare era small
          (ground arith) few holds')

-- By the laws of float64, for a client whose server runs tbScript over the commands of Redis, with a
-- clock that is off by half the TTL at most, a TTL of at least a millisecond, a capacity up to 2^53, a
-- key without a bucket on the server, an instant from 1970 to 2262, and a burst of requests at it, each
-- for at most 2^53 units, at any rate: AllowTokenBucket of the Redis store decides exactly as a
-- counter that starts at zero and lets a request through if and only if it stays within the capacity,
-- and so does that of a memory store which has no entry of the key yet.
pub redis_token_bucket_burst_matches_memory :
    {F : Type 0} ⦃fl : Float64 F⦄ (laws : IsFloat64 F) (c : Commands F) (redis : IsRedis c)
    (hashes : HasHashes c redis) (skew : ℕ) (r : Redis F) (serves : Serves c redis r.client skew)
    (runs : ServesBucket c redis r.client skew serves) (key : Bytes) (rate : F) (capacity : ℕ)
    (ttl : Duration) (t : Time) (s : r.client.S) (m : Memory F) (ns : List ℕ)
    → IsWindow ttl
    → millisecond ≤ℤ ttl
    → 2 * skew ≤ width ttl
    → InEra t
    → capacity ≤ exact_floats
    → All (λ n. n ≤ exact_floats) ns
    → redis.read (r.prefix ++ key) (serves.data_of s) ≡ none
    → find key m ≡ none
    → let here = decided laws c redis hashes skew r serves runs key rate capacity ttl t s ns in
      (here ≡ promised capacity 0 ns) × (here ≡ InMemory.decided key rate capacity ttl t m ns)
redis_token_bucket_burst_matches_memory laws c redis hashes skew r serves runs key rate capacity ttl
      t s m ns w long spare era small few empty fresh =
    let here =
      decided-promised laws c redis hashes skew r serves runs key rate capacity ttl t 0 s ns w long
        spare era small (omega arith) few (rw empty refl) in
    let later = era.since_1970 in
    (
      here,
      here
          ∙ sym (
              token_bucket_burst_is_exact laws key rate capacity ttl t m ns (omega (arith, later))
                (omega (arith, w.positive)) small few fresh),
    )
