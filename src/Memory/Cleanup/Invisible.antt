-- ===== src/Memory/Cleanup/Invisible.antt =====
-- store/memory.go: what removeExpired does to the entry of a key, and that no evaluation sees it.
use rateshield.Prelude.{
  ℕ, zero, suc, ◌-◌, ◌+◌, ◌≤◌, ◌≡◌, refl, sym, ◌∙◌, ap, arith, Option, none, some, Bytes, bytes_eq,
  bytes_eq_iff, lookup, Distinct, [], ◌∷◌, if◌then◌else◌, ◌==◌, leb, Bool-cases, inl, inr, ℤ, ◌≤ℤ◌,
}
use rateshield.Go.{Context, ok}
use rateshield.Store.{EvalResult, Answer}
use rateshield.Go.Time.{Time, Duration, Clock, now, after}
use rateshield.Go.Float.{Float64}
use rateshield.Memory.{Memory, Shard, MemEntry, find, get_shard, num_shards}
use rateshield.Memory.Shards.{IsWellFormed, get_shard-lt, find-put}
use rateshield.Memory.Window.{live, evaluate}
use rateshield.Memory.FixedWindow.{eval_fixed_window, allow_fixed_window}
use rateshield.Memory.SlidingCounter.{eval_sliding_window_counter, allow_sliding_window_counter}
use rateshield.Memory.SlidingLog.{eval_sliding_window_log, allow_sliding_window_log}
use rateshield.Memory.TokenBucket.{eval_token_bucket, allow_token_bucket}
use rateshield.Memory.Cleanup.{sweep, sweep_shard, sweep_from, remove_expired}

module _ {F : Type 0} where
  -- The entry of a key after a sweep of its map.
  lookup-sweep :
      (t : Time) (k : Bytes) (s : Shard F) → Distinct s → lookup k (sweep t s) ≡ live t (lookup k s)
  unfolding lookup sweep live
  lookup-sweep t k [] h = refl
  lookup-sweep t k ((j, e) ∷ s) h =
      let rest = lookup-sweep t k s h.1 in
      elim (Bool-cases (after t e.expires_at)) [
        | inl old ↦ ground (arith, bytes_eq_iff j k, rest)
        | inr young ↦ ground (arith, rest)
      ]

  sweep-Distinct : (t : Time) (s : Shard F) → Distinct s → Distinct (sweep t s)
  unfolding sweep live
  sweep-Distinct t [] h = tt
  sweep-Distinct t ((j, e) ∷ s) h = elim (Bool-cases (after t e.expires_at)) [
    | inl old ↦ rw old (sweep-Distinct t s h.1)
    | inr young ↦ rw young (lookup-sweep t j s h.1 ∙ ap (live t) h.0, sweep-Distinct t s h.1)
  ]

  pub sweep_shard-IsWellFormed :
      (t : Time) (i : ℕ) (m : Memory F) → IsWellFormed m → IsWellFormed (sweep_shard t i m)
  unfolding sweep_shard
  sweep_shard-IsWellFormed t i m h j = elim (Bool-cases (i == j)) [
    | inl here ↦ rw here (sweep-Distinct t _ (h i))
    | inr there ↦ rw there (h j)
  ]

  -- The entry of a key after one step of a pass.
  find-sweep_shard :
      (t : Time) (i : ℕ) (k : Bytes) (m : Memory F)
      → IsWellFormed m
      → find k (sweep_shard t i m) ≡ (if i == get_shard k then live t (find k m) else find k m)
  unfolding find sweep_shard
  find-sweep_shard t i k m h = ground (arith, lookup-sweep t k (m.shards i) (h i))

  -- The entry of a key after the last `left` steps of a pass.
  find-sweep_from :
      (t : Time) (left : ℕ) (k : Bytes) (m : Memory F)
      → left ≤ num_shards
      → IsWellFormed m
      → find k (sweep_from t left m)
        ≡ (if leb num_shards (get_shard k + left) then live t (find k m) else find k m)
  unfolding sweep_from
  find-sweep_from t zero k m le h = ground (arith, get_shard-lt k)
  find-sweep_from t (suc left) k m le h =
      let i = num_shards - suc left in
      let m' = sweep_shard t i m in
      ground (
        arith,
        get_shard-lt k,
        find-sweep_shard t i k m h,
        find-sweep_from t left k m' (omega arith) (sweep_shard-IsWellFormed t i m h),
      )

  -- After a cleanup a key has the entry that it had, unless that has expired.
  pub find-remove_expired :
      (t : Time) (k : Bytes) (m : Memory F)
      → IsWellFormed m
      → find k (remove_expired t m) ≡ live t (find k m)
  unfolding remove_expired
  find-remove_expired t k m h =
      ground (arith, get_shard-lt k, find-sweep_from t num_shards k m (omega arith) h)

  -- Whatever has expired at `s` has expired at a later instant `t`.
  pub live-live : (s t : Time) (o : Option (MemEntry F)) → s ≤ℤ t → live t (live s o) ≡ live t o
  unfolding live
  live-live s t none h = refl
  live-live s t (some e) h = ground arith

  -- Two answers are the same to every caller that comes at `t` or later: the same result, and the
  -- same live entry of every key.
  abbrev pub SameToCallers : Time → Answer (Memory F) → Answer (Memory F) → Type 0
  SameToCallers t a b = (a.0 ≡ b.0) × ((j : Bytes) → live t (find j a.1) ≡ live t (find j b.1))

  evaluate-remove_expired :
      (eval : Time → Option (MemEntry F) → EvalResult × MemEntry F)
      → ((t : Time) (o : Option (MemEntry F)) → eval t (live t o) ≡ eval t o)
      → (s : Time) (ctx : Context) (key : Bytes) (clock : Clock) (m : Memory F) → s ≤ℤ now clock
      → IsWellFormed m
      → SameToCallers
          (now clock)
          (evaluate ctx key eval clock (remove_expired s m))
          (evaluate ctx key eval clock m)
  unfolding evaluate
  evaluate-remove_expired eval only_live s (some e) key clock m le h = (
    refl,
    λ j. ap (live (now clock)) (find-remove_expired s j m h) ∙ live-live s (now clock) _ le,
  )
  evaluate-remove_expired eval only_live s none key clock m le h =
      let t = now clock in
      let same : eval t (find key (remove_expired s m)) ≡ eval t (find key m) =
        ap (eval t) (find-remove_expired s key m h)
        ∙ sym (only_live t (live s (find key m)))
        ∙ ap (eval t) (live-live s t (find key m) le)
        ∙ only_live t (find key m) in
      (
        ap (λ p. ok p.0) same,
        λ j.
            rw
              (
                find-put key j (eval t (find key (remove_expired s m))).1 (remove_expired s m),
                find-put key j (eval t (find key m)).1 m,
                same,
                find-remove_expired s j m h,
              )
              (elim (Bool-cases (bytes_eq key j)) [
                | inl here ↦ rw here
                | inr there ↦ rw there (live-live s t (find j m) le)
              ]),
      )

module _ {F : Type 0} ⦃fl : Float64 F⦄ where
  -- In a well-formed store, a cleanup pass at an instant that is not after the next reading of the
  -- clock changes neither the result of any of the four evaluations that follows nor any key's live
  -- entry after it.
  pub evaluations_ignore_cleanup :
      (s : Time) (ctx : Context) (key : Bytes) (rate : F) (capacity limit n : ℤ)
      (window ttl : Duration) (clock : Clock) (m : Memory F)
      → s ≤ℤ now clock
      → IsWellFormed m
      → let m' = remove_expired s m in
        let Same = SameToCallers (now clock) in
        Same
          (allow_token_bucket ctx key rate capacity n ttl clock m')
          (allow_token_bucket ctx key rate capacity n ttl clock m)
        × Same
            (allow_fixed_window ctx key limit window n ttl clock m')
            (allow_fixed_window ctx key limit window n ttl clock m)
        × Same
            (allow_sliding_window_counter ctx key limit window n ttl clock m')
            (allow_sliding_window_counter ctx key limit window n ttl clock m)
        × Same
            (allow_sliding_window_log ctx key limit window n ttl clock m')
            (allow_sliding_window_log ctx key limit window n ttl clock m)
  unfolding allow_token_bucket allow_fixed_window allow_sliding_window_counter
      allow_sliding_window_log eval_token_bucket eval_fixed_window eval_sliding_window_counter
      eval_sliding_window_log
  evaluations_ignore_cleanup s ctx key rate capacity limit n window ttl clock m le h = (
    evaluate-remove_expired _ (λ t o. rw (live-live t t o (omega arith))) s ctx key clock m le h,
    evaluate-remove_expired _ (λ t o. rw (live-live t t o (omega arith))) s ctx key clock m le h,
    evaluate-remove_expired _ (λ t o. rw (live-live t t o (omega arith))) s ctx key clock m le h,
    evaluate-remove_expired _ (λ t o. rw (live-live t t o (omega arith))) s ctx key clock m le h,
  )
