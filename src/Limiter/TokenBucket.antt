-- ===== src/Limiter/TokenBucket.antt =====
-- limiters.go: the token bucket limiter.
use rateshield.Prelude.{ℤ, pos, leb_ℤ, eq_ℤ, ◌||◌, if◌then◌else◌, Bytes, Option, none, some}
use rateshield.Go.{Error, Outcome, ok, err, invalid_config, Context}
use rateshield.Go.Time.{Duration, Clock, hour}
use rateshield.Go.Float.{Float64, nought}
use rateshield.Store.{Store}
use rateshield.Limiter.{Checked, check_key, reset_key}

pub record TokenBucketConfig (F : Type 0) : Type 1 where
  pub rate : F
  pub capacity : ℤ
  pub store : Option (Store F)
  pub ttl : Duration

pub record TokenBucket (F : Type 0) : Type 1 where
  pub rate : F
  pub capacity : ℤ
  pub store : Store F
  pub ttl : Duration

module _ {F : Type 0} ⦃fl : Float64 F⦄ where
  new_over : TokenBucketConfig F → Option (Store F) → Outcome (TokenBucket F)
  new_over cfg none = err invalid_config
  new_over cfg (some s) =
      if fl.fle cfg.rate nought || leb_ℤ cfg.capacity (pos 0)
      then err invalid_config
      else ok (record {
        rate = cfg.rate;
        capacity = cfg.capacity;
        store = s;
        ttl = if eq_ℤ cfg.ttl (pos 0) then hour else cfg.ttl;
      })

  -- NewTokenBucket
  unfoldable pub new : TokenBucketConfig F → Outcome (TokenBucket F)
  unfolding new_over
  new cfg = new_over cfg cfg.store

module _ {F : Type 0} (tb : TokenBucket F) where
  unfoldable pub allow_n_fast : Context → Bytes → ℤ → Clock → tb.store.S → Checked tb.store.S
  unfolding check_key
  allow_n_fast ctx key n =
      check_key tb.capacity key (tb.store.allow_token_bucket ctx key tb.rate tb.capacity n tb.ttl)

  -- AllowN: a pointer to the result, or nil beside the error
  unfoldable pub allow_n : Context → Bytes → ℤ → Clock → tb.store.S → Checked tb.store.S
  unfolding allow_n_fast
  allow_n ctx key n = allow_n_fast ctx key n

  unfoldable pub allow : Context → Bytes → Clock → tb.store.S → Checked tb.store.S
  unfolding allow_n
  allow ctx key = allow_n ctx key (pos 1)

  unfoldable pub allow_fast : Context → Bytes → Clock → tb.store.S → Checked tb.store.S
  unfolding allow_n_fast
  allow_fast ctx key = allow_n_fast ctx key (pos 1)

  unfoldable pub reset : Context → Bytes → tb.store.S → Option Error × tb.store.S
  unfolding reset_key
  reset ctx key = reset_key key (tb.store.reset ctx key)

  unfoldable pub close : tb.store.S → Option Error × tb.store.S
  close = tb.store.close
