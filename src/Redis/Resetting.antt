-- ===== src/Redis/Resetting.antt =====
-- store/redis.go: the loop of Reset ends when the scan does.
use rateshield.Prelude.{
  ℕ, zero, suc, ◌≤◌, ◌≡◌, ◌≢◌, false, refl, arith, some, List, [], ◌∷◌, ◌++◌, Bytes, ◌==◌,
}
use mathlib.Core.List.{append_assoc, append-nil}
use rateshield.Go.{Context, Error, ok, err}
use rateshield.Go.Text.{bytes}
use rateshield.Redis.{Redis, scan_from, reset}

module _ {F : Type 0} (r : Redis F) (ctx : Context) (pattern : Bytes) where
  -- The answers of the server to the calls of a scan from a cursor on, until it gives the cursor zero
  -- or an error: the number of calls, the keys of all answers, and the server's state after them.
  pub data Scans : ℕ → r.client.S → ℕ → List Bytes → r.client.S → Type 0 where
    failing :
        {cursor : ℕ} {s t : r.client.S} {e : Error}
        → r.client.scan ctx cursor pattern 100 s ≡ (err e, t)
        → Scans cursor s 1 [] t
    last :
        {cursor : ℕ} {s t : r.client.S} {keys : List Bytes}
        → r.client.scan ctx cursor pattern 100 s ≡ (ok (keys, 0), t)
        → Scans cursor s 1 keys t
    more :
        {cursor next calls : ℕ} {s t u : r.client.S} {keys rest : List Bytes}
        → r.client.scan ctx cursor pattern 100 s ≡ (ok (keys, next), t)
        → next ≢ 0
        → Scans next t calls rest u
        → Scans cursor s (suc calls) (keys ++ rest) u

  scan_from-Scans :
      (fuel : ℕ) {cursor calls : ℕ} {s t : r.client.S} {keys : List Bytes} (seen : List Bytes)
      → calls ≤ fuel
      → Scans cursor s calls keys t
      → scan_from r fuel ctx pattern seen cursor s ≡ some (seen ++ keys, t)
  unfolding scan_from
  scan_from-Scans zero seen le (failing e) = absurd (omega arith)
  scan_from-Scans zero seen le (last e) = absurd (omega arith)
  scan_from-Scans zero seen le (more e ne rest) = absurd (omega arith)
  scan_from-Scans (suc fuel) seen le (failing e) = rw (e, append-nil) refl
  scan_from-Scans (suc fuel) seen le (last e) = rw e refl
  scan_from-Scans (suc fuel) seen le (more {next = next} {keys = keys} {rest = rest} e ne later) =
      let open_ : (next == 0) ≡ false = ground arith in
      rw (e, open_, ← append_assoc) (scan_from-Scans fuel (seen ++ keys) (omega arith) later)

-- If the scan for the key's pattern that begins at cursor zero gives, after some calls, the cursor
-- zero or an error, then Reset ends within that many rounds, and its result is that of deleting the
-- key itself and all keys which the scan gave until then.
pub reset_ends_with_scan :
    {F : Type 0} (r : Redis F) (ctx : Context) (key : Bytes) {calls : ℕ} {keys : List Bytes}
    {s t : r.client.S} (fuel : ℕ)
    → Scans r ctx ((r.prefix ++ key) ++ bytes ":*") 0 s calls keys t
    → calls ≤ fuel
    → reset r fuel ctx key s ≡ some (r.client.del ctx ((r.prefix ++ key) ∷ keys) t)
unfolding reset
reset_ends_with_scan r ctx key fuel sc le =
    rw (scan_from-Scans r ctx ((r.prefix ++ key) ++ bytes ":*") fuel ((r.prefix ++ key) ∷ []) le sc)
