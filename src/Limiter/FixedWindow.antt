-- ===== src/Limiter/FixedWindow.antt =====
-- limiters.go: the fixed window limiter.
use rateshield.Prelude.{
  ℤ, pos, ◌*ℤ◌, leb_ℤ, eq_ℤ, int64, ◌||◌, if◌then◌else◌, Bytes, Option, none, some,
}
use rateshield.Go.{Error, Outcome, ok, err, invalid_config, Context}
use rateshield.Go.Time.{Duration, Clock}
use rateshield.Store.{Store}
use rateshield.Limiter.{Checked, check_key, reset_key}

pub record FixedWindowConfig (F : Type 0) : Type 1 where
  pub limit : ℤ
  pub window : Duration
  pub store : Option (Store F)
  pub ttl : Duration

pub record FixedWindow (F : Type 0) : Type 1 where
  pub limit : ℤ
  pub window : Duration
  pub store : Store F
  pub ttl : Duration

module _ {F : Type 0} where
  new_over : FixedWindowConfig F → Option (Store F) → Outcome (FixedWindow F)
  new_over cfg none = err invalid_config
  new_over cfg (some s) =
      if leb_ℤ cfg.limit (pos 0) || leb_ℤ cfg.window (pos 0)
      then err invalid_config
      else ok (record {
        limit = cfg.limit;
        window = cfg.window;
        store = s;
        ttl = if eq_ℤ cfg.ttl (pos 0) then int64 (cfg.window *ℤ pos 2) else cfg.ttl;
      })

  -- NewFixedWindow
  unfoldable pub new : FixedWindowConfig F → Outcome (FixedWindow F)
  unfolding new_over
  new cfg = new_over cfg cfg.store

module _ {F : Type 0} (fw : FixedWindow F) where
  unfoldable pub allow_n_fast : Context → Bytes → ℤ → Clock → fw.store.S → Checked fw.store.S
  unfolding check_key
  allow_n_fast ctx key n =
      check_key fw.limit key (fw.store.allow_fixed_window ctx key fw.limit fw.window n fw.ttl)

  -- AllowN: a pointer to the result, or nil beside the error
  unfoldable pub allow_n : Context → Bytes → ℤ → Clock → fw.store.S → Checked fw.store.S
  unfolding allow_n_fast
  allow_n ctx key n = allow_n_fast ctx key n

  unfoldable pub allow : Context → Bytes → Clock → fw.store.S → Checked fw.store.S
  unfolding allow_n
  allow ctx key = allow_n ctx key (pos 1)

  unfoldable pub allow_fast : Context → Bytes → Clock → fw.store.S → Checked fw.store.S
  unfolding allow_n_fast
  allow_fast ctx key = allow_n_fast ctx key (pos 1)

  unfoldable pub reset : Context → Bytes → fw.store.S → Option Error × fw.store.S
  unfolding reset_key
  reset ctx key = reset_key key (fw.store.reset ctx key)

  unfoldable pub close : fw.store.S → Option Error × fw.store.S
  close = fw.store.close
