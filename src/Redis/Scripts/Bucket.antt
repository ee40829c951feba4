-- ===== src/Redis/Scripts/Bucket.antt =====
-- store/redis.go: tbScript, over the commands of the server.
use rateshield.Prelude.{ℤ, pos, ◌-ℤ◌, Bool, ◌&&◌, not, Option, none, some, Bytes, if◌then◌else◌}
use rateshield.Go.Float.{Float64, nought}
use rateshield.Redis.Commands.{Commands}
use rateshield.Redis.Scripts.{Run, ◌>>=◌, ◌>>◌, pure, Reply, flag, at_least_zero, expire}

module _ {F : Type 0} ⦃fl : Float64 F⦄ where
  -- the tokens and `last_update` after the time that has passed
  abbrev pub refilled : (rate : F) (capacity now : ℤ) → F → ℤ → F × ℤ
  refilled rate capacity now tokens last_update =
      let elapsed = fl.fdiv (fl.of_int (now -ℤ last_update)) (fl.of_int (pos 1000)) in
      let sum = fl.fadd tokens (fl.fmul elapsed rate) in
      if fl.flt nought elapsed
      then (if fl.flt (fl.of_int capacity) sum then fl.of_int capacity else sum, now)
      else (tokens, last_update)

  abbrev pub bucket_of : (rate : F) (capacity now : ℤ) → Option (F × ℤ) → F × ℤ
  bucket_of rate capacity now none = (fl.of_int capacity, now)
  bucket_of rate capacity now (some (tokens, last_update)) =
      refilled rate capacity now tokens last_update

  -- the milliseconds until the rate has made so many tokens
  abbrev pub millis_for : (rate : F) → F → ℤ
  millis_for rate tokens = fl.ceil_of (fl.fmul (fl.fdiv tokens rate) (fl.of_int (pos 1000)))

  abbrev pub retry_after_ms : Bool → (rate : F) (requested : ℤ) → F → ℤ
  retry_after_ms allowed rate requested tokens =
      if not allowed && fl.flt nought rate
      then millis_for rate (fl.fsub (fl.of_int requested) tokens)
      else pos 0

  abbrev pub reset_after_ms : (rate : F) (capacity : ℤ) → F → ℤ
  reset_after_ms rate capacity tokens =
      let missing = fl.fsub (fl.of_int capacity) tokens in
      if fl.flt nought rate
      then millis_for rate (if fl.flt missing nought then nought else missing)
      else pos 0

  module _ (c : Commands F) (t : ℤ) where
    unfoldable pub tb_run : Bytes → (rate : F) → (capacity now requested ttl_ms : ℤ) → Run c.D Reply
    tb_run key rate capacity now requested ttl_ms = do
      fields ← c.hmget t key
      let (available, last_update) = bucket_of rate capacity now fields
      let allowed = fl.fle (fl.of_int requested) available
      let tokens = if allowed then fl.fsub available (fl.of_int requested) else available
      c.hset t key tokens last_update
      expire c t key ttl_ms
      pure (record {
        allowed = flag allowed;
        remaining = at_least_zero (fl.floor_of tokens);
        reset_ms = reset_after_ms rate capacity tokens;
        retry_ms = retry_after_ms allowed rate requested tokens;
      })
