-- ===== src/Memory/TokenBucket.antt =====
-- store/memory.go: AllowTokenBucket.
use rateshield.Prelude.{ℤ, pos, leb_ℤ, if◌then◌else◌, Bool, Bytes, Option, none, some}
use rateshield.Go.{Context}
use rateshield.Go.Time.{Time, Duration, Clock, add, sub, is_zero, second}
use rateshield.Go.Float.{Float64, seconds, nought}
use rateshield.Store.{EvalResult, Answer}
use rateshield.Memory.{Memory, MemEntry, zero_entry}
use rateshield.Memory.Window.{at_least_zero, live, evaluate}
pub mod Bounds
pub mod Burst

module _ {F : Type 0} ⦃fl : Float64 F⦄ where
  -- the last branch of the entry: the tokens of the time that has passed, up to the capacity
  unfoldable pub refill : Time → F → ℤ → MemEntry F → MemEntry F
  refill t rate capacity e =
      let elapsed = seconds (sub t e.last_upd) in
      let sum = fl.fadd e.tokens (fl.fmul elapsed rate) in
      if fl.flt nought elapsed
      then record e {
        tokens = if fl.flt (fl.of_int capacity) sum then fl.of_int capacity else sum;
        last_upd = t;
      }
      else e

  unfoldable pub bucket_entry : Time → F → ℤ → Option (MemEntry F) → MemEntry F
  unfolding refill
  bucket_entry t rate capacity none = record zero_entry {
    tokens = fl.of_int capacity;
    last_upd = t;
  }
  bucket_entry t rate capacity (some e) =
      if is_zero e.last_upd
      then record e { tokens = fl.of_int capacity; last_upd = t }
      else refill t rate capacity e

  -- the wait of a request that is refused, and the instant at which the bucket is full
  unfoldable pub bucket_retry_after : Bool → F → ℤ → Duration → F → Duration
  bucket_retry_after allowed rate n ttl tokens =
      let needed = fl.fsub (fl.of_int n) tokens in
      let wait = fl.to_int (fl.fmul (fl.fdiv needed rate) (fl.of_int second)) in
      if allowed then pos 0 else (if fl.fle rate nought then ttl else at_least_zero wait)

  unfoldable pub bucket_reset_at : Time → F → ℤ → Duration → F → Time
  bucket_reset_at t rate capacity ttl tokens =
      let missing = fl.fsub (fl.of_int capacity) tokens in
      let missing' = if fl.flt missing nought then nought else missing in
      if fl.fle rate nought
      then add t ttl
      else add t (fl.to_int (fl.fmul (fl.fdiv missing' rate) (fl.of_int second)))

  unfoldable pub eval_token_bucket :
      (rate : F) (capacity n : ℤ) (ttl : Duration) (t : Time)
      → Option (MemEntry F)
      → EvalResult × MemEntry F
  unfolding live
  eval_token_bucket rate capacity n ttl t o =
      let e = record (bucket_entry t rate capacity (live t o)) { expires_at = add t ttl } in
      let allowed = fl.fle (fl.of_int n) e.tokens in
      let e' = if allowed then record e { tokens = fl.fsub e.tokens (fl.of_int n) } else e in
      (
        record {
          allowed = allowed;
          remaining = at_least_zero (fl.to_int e'.tokens);
          reset_at = bucket_reset_at t rate capacity ttl e'.tokens;
          retry_after = bucket_retry_after allowed rate n ttl e'.tokens;
        },
        e',
      )

  unfoldable pub allow_token_bucket :
      Context
      → Bytes
      → (rate : F) → (capacity n : ℤ) → (ttl : Duration) → Clock
      → Memory F
      → Answer (Memory F)
  unfolding evaluate
  allow_token_bucket ctx key rate capacity n ttl =
      evaluate ctx key (eval_token_bucket rate capacity n ttl)
