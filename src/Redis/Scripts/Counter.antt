-- ===== src/Redis/Scripts/Counter.antt =====
-- store/redis.go: swcScript, over the commands of the server.
use rateshield.Prelude.{
  ℤ, pos, ◌+ℤ◌, ◌-ℤ◌, ◌*ℤ◌, leb_ℤ, eq_ℤ, Option, none, some, Bytes, if◌then◌else◌,
}
use rateshield.Go.Float.{Float64, nought}
use rateshield.Go.Text.{bytes}
use rateshield.Redis.Commands.{Commands}
use rateshield.Redis.Scripts.{
  Run, ◌>>=◌, ◌>>◌, pure, Reply, expire, window_num, window_key, window_reply,
}

-- `currKey` and `prevKey`, by the number of the window
abbrev pub counter_key : Bytes → ℤ → Bytes
counter_key key num = window_key key (bytes ":swc:") num

module _ (F : Type 0) ⦃fl : Float64 F⦄ where
  -- `weight`, and `estimated` before the request is counted
  abbrev pub weight_at : (window_ms now : ℤ) → F
  weight_at window_ms now =
      let time_in_win = now -ℤ window_num now window_ms *ℤ window_ms in
      let w = fl.fsub (fl.of_int (pos 1)) (fl.fdiv (fl.of_int time_in_win) (fl.of_int window_ms)) in
      if fl.flt w nought then nought else w

  abbrev pub estimated : (window_ms now prev curr : ℤ) → ℤ
  estimated window_ms now prev curr =
      fl.floor_of (fl.fadd (fl.fmul (fl.of_int prev) (weight_at window_ms now)) (fl.of_int curr))

-- `tonumber(... or "0")`
abbrev pub or_zero : Option ℤ → ℤ
or_zero none = pos 0
or_zero (some n) = n

module _ {F : Type 0} ⦃fl : Float64 F⦄ (c : Commands F) (t : ℤ) where
  unfoldable pub count_under : Bytes → Run c.D ℤ
  count_under key = do found ← c.get t key; pure (or_zero found)

  -- the branch of a request that fits
  unfoldable pub count_units : Bytes → (window_ms requested : ℤ) → Run c.D (Unit {0})
  count_units key window_ms requested = do
    count ← c.incr_by t key requested
    if eq_ℤ count requested then expire c t key (window_ms *ℤ pos 2) else pure tt

  unfoldable pub swc_run : Bytes → (limit window_ms now requested : ℤ) → Run c.D Reply
  unfolding count_under count_units
  swc_run key limit window_ms now requested = do
    let num = window_num now window_ms
    curr ← count_under (counter_key key num)
    prev ← count_under (counter_key key (num -ℤ pos 1))
    let guess = estimated F window_ms now prev curr
    let allowed = leb_ℤ (guess +ℤ requested) limit
    if allowed then count_units (counter_key key num) window_ms requested else pure tt
    let guess' = if allowed then guess +ℤ requested else guess
    pure (window_reply allowed guess' limit ((num +ℤ pos 1) *ℤ window_ms) now)
