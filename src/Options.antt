-- ===== src/Options.antt =====
-- options.go: the functional options, and New.
use rateshield.Prelude.{ℤ, pos, Option, none, some, List, [], ◌∷◌}
use rateshield.Go.{Outcome, ok, err, invalid_config}
use rateshield.Go.Time.{Duration, hour, minute}
use rateshield.Go.Float.{Float64}
use rateshield.Store.{Store}
use rateshield.Keys.{KeyExtractor}
use rateshield.Memory.Backend.{memory_store}
use rateshield.Limiter.{FailStrategy, fail_open}
use rateshield.Limiter.TokenBucket
use rateshield.Limiter.FixedWindow
use rateshield.Limiter.SlidingWindowCounter
use rateshield.Limiter.SlidingWindow
use rateshield.Limiter.Any.{
  Limiter, token_bucket, fixed_window, sliding_window_counter, sliding_window,
}
pub mod Defaults

-- Algorithm is an int; the default case of New stands for the other numbers.
pub data Algorithm : Type 0 where
  token_bucket_algorithm sliding_window_algorithm : Algorithm
  fixed_window_algorithm sliding_window_counter_algorithm : Algorithm
  other_algorithm : ℤ → Algorithm

pub record Options (F : Type 0) : Type 1 where
  pub algorithm : Algorithm
  pub rate : F
  pub capacity : ℤ
  pub limit : ℤ
  pub window : Duration
  pub store : Option (Store F)
  pub ttl : Duration
  pub key_extractor : Option KeyExtractor
  pub fail_strategy : FailStrategy

-- `type Option func(*Options)`
abbrev pub Setting : Type 0 → Type 1
Setting F = Options F → Options F

module _ {F : Type 0} where
  unfoldable pub with_algorithm : Algorithm → Setting F
  with_algorithm alg o = record o { algorithm = alg }

  unfoldable pub with_rate : F → Setting F
  with_rate rate o = record o { rate = rate }

  unfoldable pub with_capacity : ℤ → Setting F
  with_capacity capacity o = record o { capacity = capacity }

  unfoldable pub with_limit : ℤ → Setting F
  with_limit limit o = record o { limit = limit }

  unfoldable pub with_window : Duration → Setting F
  with_window window o = record o { window = window }

  unfoldable pub with_store : Store F → Setting F
  with_store s o = record o { store = some s }

  unfoldable pub with_ttl : Duration → Setting F
  with_ttl ttl o = record o { ttl = ttl }

  unfoldable pub with_key_extractor : KeyExtractor → Setting F
  with_key_extractor ke o = record o { key_extractor = some ke }

  unfoldable pub with_fail_strategy : FailStrategy → Setting F
  with_fail_strategy strategy o = record o { fail_strategy = strategy }

  -- Apply
  unfoldable pub apply : List (Setting F) → Options F → Options F
  apply [] o = o
  apply (opt ∷ opts) o = apply opts (opt o)

module _ {F : Type 0} ⦃fl : Float64 F⦄ where
  unfoldable pub default_options : Options F
  default_options = record {
    algorithm = token_bucket_algorithm;
    rate = fl.of_int (pos 10);
    capacity = pos 20;
    limit = pos 100;
    window = minute;
    store = none;
    ttl = hour;
    key_extractor = none;
    fail_strategy = fail_open;
  }

  -- `s := o.Store; if s == nil { s = store.NewMemory() }`
  abbrev pub store_or_memory : Option (Store F) → Store F
  store_or_memory none = memory_store fl
  store_or_memory (some s) = s

  abbrev map_limiter : {L : Type 1} → (L → Limiter F) → Outcome L → Outcome (Limiter F)
  map_limiter f (ok l) = ok (f l)
  map_limiter f (err e) = err e

  -- the switch of New
  make : Algorithm → Options F → Outcome (Limiter F)
  unfolding TokenBucket.new FixedWindow.new SlidingWindow.new SlidingWindowCounter.new
  make token_bucket_algorithm o = map_limiter token_bucket (
      TokenBucket.new (record {
        rate = o.rate;
        capacity = o.capacity;
        store = some (store_or_memory o.store);
        ttl = o.ttl;
      }))
  make fixed_window_algorithm o = map_limiter fixed_window (
      FixedWindow.new (record {
        limit = o.limit;
        window = o.window;
        store = some (store_or_memory o.store);
        ttl = o.ttl;
      }))
  make sliding_window_algorithm o = map_limiter sliding_window (
      SlidingWindow.new (record {
        limit = o.limit;
        window = o.window;
        store = some (store_or_memory o.store);
        ttl = o.ttl;
      }))
  make sliding_window_counter_algorithm o = map_limiter sliding_window_counter (
      SlidingWindowCounter.new (record {
        limit = o.limit;
        window = o.window;
        store = some (store_or_memory o.store);
        ttl = o.ttl;
      }))
  make (other_algorithm k) o = err invalid_config

  -- New
  unfoldable pub new : List (Setting F) → Outcome (Limiter F)
  unfolding make default_options apply
  new opts = let o = apply opts default_options in make o.algorithm o
