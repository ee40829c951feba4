-- ===== src/Memory/Isolation.antt =====
-- store/memory.go: a call for one key leaves the other keys alone.
use rateshield.Prelude.{ℤ, ◌≡◌, refl, ◌∙◌, false, Bytes, bytes_eq, Option, none, some}
use rateshield.Go.{Context}
use rateshield.Go.Time.{Time, Duration, Clock, now}
use rateshield.Go.Float.{Float64}
use rateshield.Store.{State, EvalResult}
use rateshield.Memory.{Memory, MemEntry, find, put, reset}
use rateshield.Memory.Shards.{find-put, find-remove}
use rateshield.Memory.Window.{evaluate}
use rateshield.Memory.FixedWindow.{allow_fixed_window}
use rateshield.Memory.SlidingCounter.{allow_sliding_window_counter}
use rateshield.Memory.SlidingLog.{allow_sliding_window_log}
use rateshield.Memory.TokenBucket.{allow_token_bucket}
use rateshield.Memory.Legacy.{set, increment}

module _ {F : Type 0} (key j : Bytes) (other : bytes_eq key j ≡ false) where
  put_elsewhere : (e : MemEntry F) (m : Memory F) → find j (put key e m) ≡ find j m
  put_elsewhere e m = find-put key j e m ∙ rw other

  evaluate_elsewhere :
      (ctx : Context) (eval : Time → Option (MemEntry F) → EvalResult × MemEntry F) (clock : Clock)
      (m : Memory F)
      → find j (evaluate ctx key eval clock m).1 ≡ find j m
  unfolding evaluate
  evaluate_elsewhere (some e) eval clock m = refl
  evaluate_elsewhere none eval clock m = put_elsewhere (eval (now clock) (find key m)).1 m

module _ {F : Type 0} ⦃fl : Float64 F⦄ where
  -- A call of one of the seven methods that write the entry of a key leaves the entry of every other
  -- key as it is.
  pub calls_keep_other_keys :
      (key j : Bytes) (ctx : Context) (rate : F) (capacity limit n : ℤ) (window ttl : Duration)
      (state : State F) (clock : Clock) (m : Memory F)
      → bytes_eq key j ≡ false
      → (find j (allow_token_bucket ctx key rate capacity n ttl clock m).1 ≡ find j m)
        × (find j (allow_fixed_window ctx key limit window n ttl clock m).1 ≡ find j m)
        × (find j (allow_sliding_window_counter ctx key limit window n ttl clock m).1 ≡ find j m)
        × (find j (allow_sliding_window_log ctx key limit window n ttl clock m).1 ≡ find j m)
        × (find j (set ctx key state ttl clock m).1 ≡ find j m)
        × (find j (increment ctx key ttl clock m).1 ≡ find j m)
        × (find j (reset ctx key m).1 ≡ find j m)
  unfolding allow_token_bucket allow_fixed_window allow_sliding_window_counter
      allow_sliding_window_log set increment reset
  calls_keep_other_keys key j ctx rate capacity limit n window ttl state clock m other = (
    evaluate_elsewhere key j other ctx _ clock m,
    evaluate_elsewhere key j other ctx _ clock m,
    evaluate_elsewhere key j other ctx _ clock m,
    evaluate_elsewhere key j other ctx _ clock m,
    put_elsewhere key j other _ m,
    put_elsewhere key j other _ m,
    find-remove key j m ∙ rw other,
  )
