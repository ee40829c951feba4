-- ===== src/Store.antt =====
-- store/store.go: the state of a bucket, the outcome of an evaluation, and the interface of the
-- storage backends. A method of the interface takes the readings of the clock that are left and the
-- backend's state, and returns both after the call beside its result.
use rateshield.Prelude.{ℤ, Bool, List, Option, Bytes}
use rateshield.Go.{Error, Outcome, Context}
use rateshield.Go.Time.{Time, Duration, Clock}

pub record State (F : Type 0) : Type 0 where
  pub tokens : F
  pub last_update : Time
  pub count : ℤ
  pub window_start : Time
  pub requests : List Time

pub record EvalResult : Type 0 where
  pub allowed : Bool
  pub remaining : ℤ
  pub reset_at : Time
  pub retry_after : Duration

-- What a call of an evaluation leaves: its result, the backend and the clock.
abbrev pub Answer : Type 0 → Type 0
Answer S = Outcome EvalResult × S × Clock

-- The interface Store, over float64 numbers `F`.
pub record Store (F : Type 0) : Type 1 where
  pub S : Type 0
  pub reset : Context → Bytes → S → Option Error × S
  pub allow_token_bucket :
      Context → Bytes → (rate : F) → (capacity n : ℤ) → (ttl : Duration) → Clock → S → Answer S
  pub allow_fixed_window :
      Context
      → Bytes
      → (limit : ℤ) → (window : Duration) → (n : ℤ) → (ttl : Duration) → Clock
      → S
      → Answer S
  pub allow_sliding_window_counter :
      Context
      → Bytes
      → (limit : ℤ) → (window : Duration) → (n : ℤ) → (ttl : Duration) → Clock
      → S
      → Answer S
  pub allow_sliding_window_log :
      Context
      → Bytes
      → (limit : ℤ) → (window : Duration) → (n : ℤ) → (ttl : Duration) → Clock
      → S
      → Answer S
  pub close : S → Option Error × S

-- The interface LegacyStore.
pub record LegacyStore (F : Type 0) : Type 1 where
  pub store : Store F
  pub get : Context → Bytes → Clock → store.S → Outcome (State F) × store.S × Clock
  pub set :
      Context
      → Bytes
      → State F
      → (ttl : Duration) → Clock
      → store.S
      → Option Error × store.S × Clock
  pub increment : Context → Bytes → (ttl : Duration) → Clock → store.S → Outcome ℤ × store.S × Clock
