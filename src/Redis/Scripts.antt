-- ===== src/Redis/Scripts.antt =====
-- store/redis.go: what the scripts share, and fwScript, over the commands of the server. A Lua number
-- is a float64; where the scripts only count, an integer stands for it here, which is the same up to
-- 2^53, and up to 10^14 for a number that becomes part of a key or of a member, which Lua writes with
-- 14 digits. A window is a millisecond at least: the scripts divide by zero below that.
use rateshield.Prelude.{
  ℤ, pos, pos_part, ◌≡◌, ◌+ℤ◌, ◌-ℤ◌, ◌*ℤ◌, floor_div, leb_ℤ, ltb_ℤ, eq_ℤ, Bool, true, false, ◌++◌,
  Bytes, if◌then◌else◌,
}
use rateshield.Go.{Outcome, ok, err}
use rateshield.Go.Text.{bytes}
use rateshield.Go.Text.Decimal.{format_int}
use rateshield.Redis.Commands.{Commands}
pub mod Log
pub mod Counter
pub mod Bucket

-- `if x < 0 then x = 0 end`
abbrev pub at_least_zero : ℤ → ℤ
at_least_zero x = if ltb_ℤ x (pos 0) then pos 0 else x

-- A run of commands, over the data of the server: an error ends it.
abbrev pub Run : Type 0 → Type 0 → Type 0
Run D A = D → Outcome A × D

abbrev pub after : {D A B : Type 0} → (A → Run D B) → Outcome A × D → Outcome B × D
after f (ok a, d) = f a d
after f (err e, d) = (err e, d)

pub after-ok :
    {D A B : Type 0} (f : A → Run D B) (x : Outcome A × D) (a : A)
    → x.0 ≡ ok a
    → after f x ≡ f a x.1
after-ok f (ok b, d) a h = cc
after-ok f (err e, d) a h = cc

infixl 5 ◌>>=◌ ◌>>◌
abbrev pub ◌>>=◌ : {D A B : Type 0} → Run D A → (A → Run D B) → Run D B
◌>>=◌ m f d = after f (m d)

abbrev pub ◌>>◌ : {D A B : Type 0} → Run D A → Run D B → Run D B
◌>>◌ m k d = after (λ a. k) (m d)

abbrev pub pure : {D A : Type 0} → A → Run D A
pure a d = (ok a, d)

-- `{allowed, remaining, reset, retry}`
pub record Reply : Type 0 where
  pub allowed : ℤ
  pub remaining : ℤ
  pub reset_ms : ℤ
  pub retry_ms : ℤ

abbrev pub flag : Bool → ℤ
flag true = pos 1
flag false = pos 0

abbrev pub window_num : (now window_ms : ℤ) → ℤ
window_num now window_ms = floor_div now (pos_part window_ms)

-- `key .. ":fw:" .. windowNum`, and the same for ":swc:"
abbrev pub window_key : (key mark : Bytes) → ℤ → Bytes
window_key key mark num = key ++ mark ++ format_int num

-- the reply of the fixed window and of the sliding window counter, from the count or the estimate
abbrev pub window_reply : Bool → (count limit window_end now : ℤ) → Reply
window_reply allowed count limit window_end now = record {
  allowed = flag allowed;
  remaining = at_least_zero (limit -ℤ count);
  reset_ms = window_end -ℤ now;
  retry_ms = if allowed then pos 0 else at_least_zero (window_end -ℤ now);
}

module _ {F : Type 0} (c : Commands F) (t : ℤ) where
  -- PEXPIRE
  abbrev pub expire : Bytes → ℤ → Run c.D (Unit {0})
  expire key ms d = pure tt (c.pexpire t key ms d)

  -- the end of fwScript for a request over the limit: what DECRBY gave
  unfoldable pub fw_refused :
      (count limit window_end now requested : ℤ) → Outcome ℤ × c.D → Outcome Reply × c.D
  fw_refused count limit window_end now requested (ok _, d) =
      (ok (window_reply false (count -ℤ requested) limit window_end now), d)
  fw_refused count limit window_end now requested (err e, d) = (err e, d)

  -- fwScript after INCRBY
  unfoldable pub fw_counted :
      (key : Bytes) (limit window_ms window_end now requested : ℤ)
      → Outcome ℤ × c.D
      → Outcome Reply × c.D
  unfolding fw_refused
  fw_counted key limit window_ms window_end now requested (err e, d) = (err e, d)
  fw_counted key limit window_ms window_end now requested (ok count, d) =
      let d' = if eq_ℤ count requested then c.pexpire t key (window_ms *ℤ pos 2) d else d in
      if leb_ℤ count limit
      then (ok (window_reply true count limit window_end now), d')
      else fw_refused count limit window_end now requested (c.decr_by t key requested d')

  unfoldable pub fw_run :
      (key : Bytes) (limit window_ms now requested : ℤ) → c.D → Outcome Reply × c.D
  unfolding fw_counted
  fw_run key limit window_ms now requested d =
      let num = window_num now window_ms in
      let window_key = window_key key (bytes ":fw:") num in
      let window_end = (num +ℤ pos 1) *ℤ window_ms in
      fw_counted window_key limit window_ms window_end now requested
        (c.incr_by t window_key requested d)
