-- ===== src/Tests/Buckets.antt =====
-- The token bucket at concrete inputs: five tokens, one a second.
use rateshield.Prelude.{
  lookup, ℤ, pos, ◌-ℤ◌, ◌≤ℤ◌, ◌≡◌, refl, arith, true, false, ◌&&◌, none, some, [], ◌∷◌,
  if◌then◌else◌, leb_ℤ,
}
use rateshield.Go.Time.{Time, hour}
use rateshield.Go.Float.{int_float, ℤ-IsFloat64}
use rateshield.Memory.{Memory, MemEntry, find, new, zero_entry}
use rateshield.Memory.TokenBucket.{eval_token_bucket, bucket_entry}
use rateshield.Memory.TokenBucket.Bounds.{InBucket, token_bucket_stays_in_bounds}
use rateshield.Memory.TokenBucket.Burst.{promised, decided, token_bucket_burst_is_exact}
use rateshield.Memory.Window.{live}

abbrev t : Time
t = pos 62135596801000000000

abbrev store : Memory ℤ
store = new

nothing_stored : find (97 ∷ []) store ≡ none
unfolding new find lookup
nothing_stored = refl

token_bucket_burst_is_exact_example :
    decided (97 ∷ []) (pos 1) 5 hour t store (3 ∷ 3 ∷ 2 ∷ []) ≡ true ∷ false ∷ true ∷ []
unfolding promised
token_bucket_burst_is_exact_example =
    token_bucket_burst_is_exact ℤ-IsFloat64 (97 ∷ []) (pos 1) 5 hour t store (3 ∷ 3 ∷ 2 ∷ [])
      (omega arith) (omega arith) (omega arith) (ground arith) nothing_stored

-- two tokens, two seconds ago
abbrev half_empty : MemEntry ℤ
half_empty = record zero_entry {
  tokens = pos 2;
  last_upd = pos 62135596799000000000;
  expires_at = pos 62135600399000000000;
}

token_bucket_stays_in_bounds_example :
    let (res, e) = eval_token_bucket (pos 1) (pos 5) (pos 3) hour t (some half_empty) in
    let tokens = (bucket_entry t (pos 1) (pos 5) (live t (some half_empty))).tokens in
    InBucket (pos 5) e
    × (pos 0 ≤ℤ res.remaining)
    × (res.remaining ≤ℤ pos 5)
    × (res.allowed ≡ (leb_ℤ (pos 3) (pos 5) && res.allowed))
    × (e.tokens ≡ (if res.allowed then tokens -ℤ pos 3 else tokens))
token_bucket_stays_in_bounds_example =
    token_bucket_stays_in_bounds ℤ-IsFloat64 (pos 1) (pos 5) (pos 3) hour t (some half_empty) refl
      (omega arith) (omega arith) (omega arith) (omega arith) (ground arith)
