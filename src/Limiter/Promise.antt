-- ===== src/Limiter/Promise.antt =====
-- limiters.go: what the four limiters make of the store's answers, and a sliding window limiter over
-- the memory store from end to end.
use rateshield.Prelude.{
  ℕ, ◌≤◌, ◌*◌, ℤ, pos, negsuc, ◌*ℤ◌, ◌≤ℤ◌, ◌≡◌, refl, ap₂, ◌∙◌, arith, Bool, false, Bytes, none,
  some, List, [], ◌∷◌, leb_ℤ, int64, int64-id, times_pos,
}
use rateshield.Go.{Outcome, ok, err, Context, invalid_key}
use rateshield.Go.Time.{Time, Duration, Clock}
use rateshield.Go.Float.{Float64}
use rateshield.Store.{EvalResult, Answer}
use rateshield.Memory.{Memory, find}
use rateshield.Memory.Backend.{memory_store}
use rateshield.Memory.SlidingLog.{allow_sliding_window_log}
use rateshield.Memory.SlidingLog.Promise.{promised}
use rateshield.Memory.SlidingLog.Promise as Log
use rateshield.Memory.SlidingLog.Exact.{sliding_log_counts_exactly}
use rateshield.Memory.Requests.{Request, IsTimeline, lets_through}
use rateshield.Limiter.{Result, to_result}
use rateshield.Limiter.Any
use rateshield.Limiter.Any.{
  Limiter, token_bucket, fixed_window, sliding_window_counter, sliding_window, store_of, limit_of,
}
use rateshield.Limiter.TokenBucket
use rateshield.Limiter.FixedWindow
use rateshield.Limiter.SlidingWindowCounter
use rateshield.Limiter.SlidingWindow
use rateshield.Limiter.SlidingWindow.{SlidingWindow, SlidingWindowConfig}

-- Every limiter answers an empty key with ErrInvalidKey, in AllowN and in Reset, and leaves its
-- store and the clock alone.
pub empty_key_is_refused :
    {F : Type 0} (l : Limiter F) (ctx : Context) (n : ℤ) (clock : Clock) (st : (store_of l).S)
    → (Any.allow_n l ctx [] n clock st ≡ (err invalid_key, st, clock))
      × (Any.reset l ctx [] st ≡ (some invalid_key, st))
unfolding Any.allow_n Any.reset TokenBucket.allow_n FixedWindow.allow_n SlidingWindowCounter.allow_n
    SlidingWindow.allow_n TokenBucket.reset FixedWindow.reset SlidingWindowCounter.reset
    SlidingWindow.reset
empty_key_is_refused (token_bucket l) ctx n clock st = (refl, refl)
empty_key_is_refused (fixed_window l) ctx n clock st = (refl, refl)
empty_key_is_refused (sliding_window_counter l) ctx n clock st = (refl, refl)
empty_key_is_refused (sliding_window l) ctx n clock st = (refl, refl)

-- What the limiter's own evaluation of a key is.
abbrev pub evaluation_of :
    {F : Type 0} (l : Limiter F)
    → Context
    → Bytes
    → ℤ
    → Clock
    → (store_of l).S
    → Answer (store_of l).S
evaluation_of (token_bucket l) ctx key n =
    l.store.allow_token_bucket ctx key l.rate l.capacity n l.ttl
evaluation_of (fixed_window l) ctx key n =
    l.store.allow_fixed_window ctx key l.limit l.window n l.ttl
evaluation_of (sliding_window_counter l) ctx key n =
    l.store.allow_sliding_window_counter ctx key l.limit l.window n l.ttl
evaluation_of (sliding_window l) ctx key n =
    l.store.allow_sliding_window_log ctx key l.limit l.window n l.ttl

-- For a key that is not empty, AllowN of every limiter makes the one evaluation of its algorithm on
-- its store: it returns the store's error, or the store's result with the limit of the limiter, and
-- Allow is AllowN for one unit.
pub limiter_reports_store :
    {F : Type 0} (l : Limiter F) (ctx : Context) (c : ℕ) (key : Bytes) (n : ℤ) (clock : Clock)
    (st : (store_of l).S)
    → let (res, st', clock') = evaluation_of l ctx (c ∷ key) n clock st in
      (Any.allow_n l ctx (c ∷ key) n clock st ≡ (to_result (limit_of l) res, st', clock'))
      × (Any.allow l ctx (c ∷ key) clock st ≡ Any.allow_n l ctx (c ∷ key) (pos 1) clock st)
unfolding Any.allow_n Any.allow TokenBucket.allow FixedWindow.allow SlidingWindowCounter.allow
    SlidingWindow.allow
limiter_reports_store (token_bucket l) ctx c key n clock st = (refl, refl)
limiter_reports_store (fixed_window l) ctx c key n clock st = (refl, refl)
limiter_reports_store (sliding_window_counter l) ctx c key n clock st = (refl, refl)
limiter_reports_store (sliding_window l) ctx c key n clock st = (refl, refl)

-- Whether a check lets its request through.
abbrev pub passes : Outcome Result → Bool
passes (ok res) = res.allowed
passes (err e) = false

passes-to_result :
    (limit : ℤ) (o : Outcome EvalResult) → passes (to_result limit o) ≡ lets_through o
passes-to_result limit (ok res) = refl
passes-to_result limit (err e) = refl

double_window :
    (window : Duration)
    → pos 1 ≤ℤ window
    → window ≤ℤ pos 4611686018427387903
    → window ≤ℤ int64 (window *ℤ pos 2)
double_window (pos w) positive fits =
    rw (times_pos w 2, int64-id (pos (w * 2)) (record { above = omega arith; below = omega arith }))
      (omega arith)
double_window (negsuc w) positive fits = absurd (omega arith)

module _ {F : Type 0} ⦃fl : Float64 F⦄ where
  -- A sliding window limiter over the memory store.
  abbrev pub in_memory : ℕ → (window ttl : Duration) → SlidingWindow F
  in_memory limit window ttl = record {
    limit = pos limit;
    window = window;
    store = memory_store fl;
    ttl = ttl;
  }

  -- What the limiter decides about the requests of a key, one after the other.
  unfoldable pub decided : Bytes → ℕ → (window ttl : Duration) → Memory F → List Request → List Bool
  decided key limit window ttl m [] = []
  decided key limit window ttl m (r ∷ rs) =
      let (res, m', clock') =
        SlidingWindow.allow_n (in_memory limit window ttl) none key (pos r.n) (λ _. r.at) m in
      passes res ∷ decided key limit window ttl m' rs

  pub decided-store :
      (c : ℕ) (key : Bytes) (limit : ℕ) (window ttl : Duration) (m : Memory F) (rs : List Request)
      → decided (c ∷ key) limit window ttl m rs ≡ Log.decided (c ∷ key) limit window ttl m rs
  unfolding decided Log.decided SlidingWindow.allow_n
  decided-store c key limit window ttl m [] = refl
  decided-store c key limit window ttl m (r ∷ rs) =
      let (res, m', clock') =
        allow_sliding_window_log none (c ∷ key) (pos limit) window (pos r.n) ttl (λ _. r.at) m in
      ap₂ ◌∷◌ (passes-to_result (pos limit) res) (decided-store c key limit window ttl m' rs)

  -- NewSlidingWindow over the memory store accepts every limit and window that are positive and keeps
  -- a TTL of twice the window if none is given and that is an int64; the limiter then lets a request
  -- of a timeline through if and only if the units that it has admitted to the key within the window
  -- that ends with the request leave room for it, for a key that is not empty and has no entry yet.
  pub sliding_window_limiter_is_exact :
      (c : ℕ) (key : Bytes) (limit : ℕ) (window : Duration) (start : Time) (m : Memory F)
      (rs : List Request)
      → 1 ≤ limit
      → pos 1 ≤ℤ window
      → window ≤ℤ pos 4611686018427387903
      → find (c ∷ key) m ≡ none
      → IsTimeline limit start rs
      → let cfg : SlidingWindowConfig F = record {
        limit = pos limit;
        window = window;
        store = some (memory_store fl);
        ttl = pos 0;
      } in
        let ttl = int64 (window *ℤ pos 2) in
        (SlidingWindow.new cfg ≡ ok (in_memory limit window ttl))
        × (decided (c ∷ key) limit window ttl m rs ≡ promised limit window [] rs)
  unfolding SlidingWindow.new
  sliding_window_limiter_is_exact c key limit window start m rs one positive fits empty line =
      let limited : leb_ℤ (pos limit) (pos 0) ≡ false = ground arith in
      let timed : leb_ℤ window (pos 0) ≡ false = ground arith in
      let ttl = int64 (window *ℤ pos 2) in
      (
        rw (limited, timed) refl,
        decided-store c key limit window ttl m rs
            ∙ sliding_log_counts_exactly (c ∷ key) limit window ttl start m rs
                (record { positive = positive; fits = omega arith })
                (double_window window positive fits) empty line,
      )
