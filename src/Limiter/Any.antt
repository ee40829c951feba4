-- ===== src/Limiter/Any.antt =====
-- limiter.go: the interface Limiter, and the four limiters that implement it.
use rateshield.Prelude.{ℤ, Bytes, Option}
use rateshield.Go.{Error, Context}
use rateshield.Go.Time.{Clock}
use rateshield.Store.{Store}
use rateshield.Limiter.{Checked}
use rateshield.Limiter.TokenBucket
use rateshield.Limiter.FixedWindow
use rateshield.Limiter.SlidingWindowCounter
use rateshield.Limiter.SlidingWindow
use rateshield.Limiter.TokenBucket.{TokenBucket}
use rateshield.Limiter.FixedWindow.{FixedWindow}
use rateshield.Limiter.SlidingWindowCounter.{SlidingWindowCounter}
use rateshield.Limiter.SlidingWindow.{SlidingWindow}

pub data Limiter (F : Type 0) : Type 1 where
  token_bucket : TokenBucket F → Limiter F
  fixed_window : FixedWindow F → Limiter F
  sliding_window_counter : SlidingWindowCounter F → Limiter F
  sliding_window : SlidingWindow F → Limiter F

module _ {F : Type 0} where
  -- The store that a limiter was made with.
  abbrev pub store_of : Limiter F → Store F
  store_of (token_bucket l) = l.store
  store_of (fixed_window l) = l.store
  store_of (sliding_window_counter l) = l.store
  store_of (sliding_window l) = l.store

  -- The number that a limiter reports as its limit.
  abbrev pub limit_of : Limiter F → ℤ
  limit_of (token_bucket l) = l.capacity
  limit_of (fixed_window l) = l.limit
  limit_of (sliding_window_counter l) = l.limit
  limit_of (sliding_window l) = l.limit

  unfoldable pub allow :
      (l : Limiter F) → Context → Bytes → Clock → (store_of l).S → Checked (store_of l).S
  allow (token_bucket l) = TokenBucket.allow l
  allow (fixed_window l) = FixedWindow.allow l
  allow (sliding_window_counter l) = SlidingWindowCounter.allow l
  allow (sliding_window l) = SlidingWindow.allow l

  unfoldable pub allow_n :
      (l : Limiter F) → Context → Bytes → ℤ → Clock → (store_of l).S → Checked (store_of l).S
  allow_n (token_bucket l) = TokenBucket.allow_n l
  allow_n (fixed_window l) = FixedWindow.allow_n l
  allow_n (sliding_window_counter l) = SlidingWindowCounter.allow_n l
  allow_n (sliding_window l) = SlidingWindow.allow_n l

  unfoldable pub reset :
      (l : Limiter F) → Context → Bytes → (store_of l).S → Option Error × (store_of l).S
  reset (token_bucket l) = TokenBucket.reset l
  reset (fixed_window l) = FixedWindow.reset l
  reset (sliding_window_counter l) = SlidingWindowCounter.reset l
  reset (sliding_window l) = SlidingWindow.reset l

  unfoldable pub close : (l : Limiter F) → (store_of l).S → Option Error × (store_of l).S
  close (token_bucket l) = TokenBucket.close l
  close (fixed_window l) = FixedWindow.close l
  close (sliding_window_counter l) = SlidingWindowCounter.close l
  close (sliding_window l) = SlidingWindow.close l
