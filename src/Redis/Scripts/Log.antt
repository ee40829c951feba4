-- ===== src/Redis/Scripts/Log.antt =====
-- store/redis.go: swlScript, over the commands of the server.
use rateshield.Prelude.{
  ℕ, zero, suc, ℤ, pos, negsuc, pos_part, ◌+ℤ◌, ◌-ℤ◌, leb_ℤ, ltb_ℤ, Option, none, some, ◌++◌, Bytes,
  if◌then◌else◌,
}
use rateshield.Go.Text.{bytes}
use rateshield.Go.Text.Decimal.{format_int}
use rateshield.Redis.Commands.{Commands}
use rateshield.Redis.Scripts.{Run, ◌>>=◌, ◌>>◌, pure, Reply, flag, at_least_zero, expire}

-- `logKey` and `seqKey`
abbrev pub log_key : Bytes → Bytes
log_key key = key ++ bytes ":swl"

abbrev pub seq_key : Bytes → Bytes
seq_key key = log_key key ++ bytes ":seq"

-- `now .. '-' .. i .. '-' .. seq`
abbrev pub member : (now : ℤ) (i : ℕ) (seq : ℤ) → Bytes
member now i seq = format_int now ++ bytes "-" ++ format_int (pos i) ++ bytes "-" ++ format_int seq

-- the rest of a window after a score, at least zero
abbrev pub rest_of : (window_ms now : ℤ) → ℤ → ℤ
rest_of window_ms now score = at_least_zero ((score +ℤ window_ms) -ℤ now)

abbrev pub retry_of : (window_ms now : ℤ) → Option ℤ → ℤ
retry_of window_ms now none = window_ms
retry_of window_ms now (some oldest) = rest_of window_ms now oldest

abbrev pub reset_of : (window_ms now : ℤ) → Option ℤ → ℤ
reset_of window_ms now none = pos 0
reset_of window_ms now (some newest) = rest_of window_ms now newest

module _ {F : Type 0} (c : Commands F) (t : ℤ) where
  -- the loop over the units, with `left` of them to go, at the index `i`
  unfoldable pub add_units : Bytes → (now : ℤ) → (left i : ℕ) → Run c.D (Unit {0})
  add_units key now zero i = pure tt
  add_units key now (suc left) i = do
    seq ← c.incr_by t (seq_key key) (pos 1)
    c.zadd t (log_key key) now (member now i seq)
    add_units key now left (suc i)

  -- the branch of a request that fits
  unfoldable pub admit : Bytes → (now requested ttl_ms : ℤ) → Run c.D (Unit {0})
  unfolding add_units
  admit key now requested ttl_ms = do
    add_units key now (pos_part requested) 1
    expire c t (log_key key) ttl_ms
    expire c t (seq_key key) ttl_ms

  -- `needed_to_expire`, at least one, and the wait for the unit at that place
  unfoldable pub wait_for_log : Bytes → (limit window_ms now requested count : ℤ) → Run c.D ℤ
  wait_for_log key limit window_ms now requested count = do
    let needed = (count +ℤ requested) -ℤ limit
    let place = (if ltb_ℤ needed (pos 1) then pos 1 else needed) -ℤ pos 1
    oldest ← c.zrange t (log_key key) place
    pure (retry_of window_ms now oldest)

  unfoldable pub swl_run : Bytes → (limit window_ms now requested ttl_ms : ℤ) → Run c.D Reply
  unfolding admit wait_for_log
  swl_run key limit window_ms now requested ttl_ms = do
    c.zremrangebyscore t (log_key key) (now -ℤ window_ms)
    count ← c.zcard t (log_key key)
    let allowed = leb_ℤ (count +ℤ requested) limit
    if allowed then admit key now requested ttl_ms else pure tt
    let count' = if allowed then count +ℤ requested else count
    retry ← if allowed then pure (pos 0) else wait_for_log key limit window_ms now requested count'
    newest ← c.zrange t (log_key key) (negsuc 0)
    pure (record {
      allowed = flag allowed;
      remaining = at_least_zero (limit -ℤ count');
      reset_ms = reset_of window_ms now newest;
      retry_ms = retry;
    })
