-- ===== src/Memory/SlidingLog/Exact.antt =====
-- store/memory.go: AllowSlidingWindowLog counts exactly, for all requests of a key.
use rateshield.Prelude.{
  ℕ, zero, suc, not, ◌+◌, ◌≤◌, ◌≡◌, refl, ap₂, arith, pos, ◌+ℤ◌, ◌-ℤ◌, ◌≤ℤ◌, +ℤ_parts, -ℤ_parts,
  Bool, ◌&&◌, none, List, [], ◌∷◌, ◌++◌, Bytes, if◌then◌else◌, length, replicate,
}
use rateshield.Go.Time.{Time, Duration, after}
use rateshield.Go.Float.{Float64}
use rateshield.Memory.{Memory, find, put}
use rateshield.Memory.Shards.{find-put_self}
use rateshield.Memory.Window.Order.{IsWindow}
use rateshield.Memory.Requests.{Request, IsTimeline}
use rateshield.Memory.SlidingLog.{eval_sliding_window_log, allow_sliding_window_log}
use rateshield.Memory.SlidingLog.Evict.{filter_after}
use rateshield.Memory.SlidingLog.Promise.{
  Log, has_room, record_request, promised, decided, Tracks, kept-Starts, eval-Tracks,
}

module _ {F : Type 0} ⦃fl : Float64 F⦄ where
  decided-promised :
      (key : Bytes) (limit : ℕ) (window ttl : Duration) (last : Time) (h : Log) (m : Memory F)
      (rs : List Request)
      → IsWindow window
      → window ≤ℤ ttl
      → Tracks limit window ttl last h (find key m)
      → IsTimeline limit last rs
      → decided key limit window ttl m rs ≡ promised limit window h rs
  unfolding decided promised allow_sliding_window_log
  decided-promised key limit window ttl last h m [] w long k line = refl
  decided-promised key limit window ttl last h m (r ∷ rs) w long k (le, et, fits, line) =
      let o = find key m in
      let e = (eval_sliding_window_log (pos limit) window ttl (pos r.n) r.at o).1 in
      let h' = record_request (has_room limit window h r) h r in
      let (same, tracks) =
        eval-Tracks limit window ttl r.at r.n h o w fits
          (kept-Starts limit window ttl last r.at h o w long le k) in
      let kept : Tracks limit window ttl r.at h' (find key (put key e m)) =
        rw (find-put_self key e m) tracks in
      ap₂ ◌∷◌ same (decided-promised key limit window ttl r.at h' (put key e m) rs w long kept line)

  -- For a key with no entry yet, a positive window and a TTL of at least the window, the store lets
  -- a request of a timeline through if and only if the units that it has admitted to the key within
  -- the window that ends with the request leave room for it under the limit.
  pub sliding_log_counts_exactly :
      (key : Bytes) (limit : ℕ) (window ttl : Duration) (start : Time) (m : Memory F)
      (rs : List Request)
      → IsWindow window
      → window ≤ℤ ttl
      → find key m ≡ none
      → IsTimeline limit start rs
      → decided key limit window ttl m rs ≡ promised limit window [] rs
  sliding_log_counts_exactly key limit window ttl start m rs w long empty line =
      decided-promised key limit window ttl start [] m rs w long (rw empty refl) line

-- The instant lies after `lo`, and not after `hi`.
abbrev pub is_within : (lo hi t : Time) → Bool
is_within lo hi t = after t lo && not (after t hi)

-- The units of the requests between two instants that were let through.
abbrev pub admitted : (lo hi : Time) → List Request → List Bool → ℕ
admitted lo hi [] bs = 0
admitted lo hi (r ∷ rs) [] = 0
admitted lo hi (r ∷ rs) (b ∷ bs) =
    (if b && is_within lo hi r.at then r.n else 0) + admitted lo hi rs bs

-- The timestamps of a log between two instants.
count_within : (lo hi : Time) → Log → ℕ
count_within lo hi [] = 0
count_within lo hi (t ∷ h) = (if is_within lo hi t then 1 else 0) + count_within lo hi h

count_within-append :
    (lo hi : Time) (h g : Log)
    → count_within lo hi (h ++ g) ≡ count_within lo hi h + count_within lo hi g
unfolding count_within
count_within-append lo hi [] g = omega arith
count_within-append lo hi (t ∷ h) g = omega (arith, count_within-append lo hi h g)

count_within-replicate :
    (lo hi : Time) (n : ℕ) (t : Time)
    → count_within lo hi (replicate n t) ≡ (if is_within lo hi t then n else 0)
unfolding count_within
count_within-replicate lo hi zero t = ground arith
count_within-replicate lo hi (suc n) t = ground (arith, count_within-replicate lo hi n t)

count_within-le :
    (lo hi start : Time) (h : Log)
    → start ≤ℤ lo
    → count_within lo hi h ≤ length (filter_after start h)
unfolding count_within filter_after
count_within-le lo hi start [] le = omega arith
count_within-le lo hi start (t ∷ h) le = ground (arith, count_within-le lo hi start h le)

-- A request that the promise lets through leaves an interval of the window's length within the limit.
record_request-le :
    (limit : ℕ) (window : Duration) (lo : Time) (h : Log) (r : Request)
    → count_within lo (lo +ℤ window) h ≤ limit
    → let b = has_room limit window h r in
      let n = if b && is_within lo (lo +ℤ window) r.at then r.n else 0 in
      (count_within lo (lo +ℤ window) (record_request b h r) ≡ count_within lo (lo +ℤ window) h + n)
      × (count_within lo (lo +ℤ window) (record_request b h r) ≤ limit)
record_request-le limit window lo h r le = ground (
  arith,
  count_within-append lo (lo +ℤ window) h (replicate r.n r.at),
  count_within-replicate lo (lo +ℤ window) r.n r.at,
  count_within-le lo (lo +ℤ window) (r.at -ℤ window) h,
  +ℤ_parts lo window,
  -ℤ_parts r.at window,
)

promised-le :
    (limit : ℕ) (window : Duration) (lo : Time) (h : Log) (rs : List Request)
    → count_within lo (lo +ℤ window) h ≤ limit
    → count_within lo (lo +ℤ window) h + admitted lo (lo +ℤ window) rs (promised limit window h rs)
      ≤ limit
unfolding promised
promised-le limit window lo h [] le = omega arith
promised-le limit window lo h (r ∷ rs) le =
    let b = has_room limit window h r in
    let (grows, fits) = record_request-le limit window lo h r le in
    omega (arith, grows, promised-le limit window lo (record_request b h r) rs fits)

-- What the promise lets through in an interval of the window's length.
pub admitted-le :
    (limit : ℕ) (window : Duration) (lo : Time) (rs : List Request)
    → admitted lo (lo +ℤ window) rs (promised limit window [] rs) ≤ limit
unfolding count_within
admitted-le limit window lo rs = omega (arith, promised-le limit window lo [] rs (omega arith))

module _ {F : Type 0} ⦃fl : Float64 F⦄ where
  -- For a key with no entry yet, a positive window and a TTL of at least the window, the units that
  -- the store lets through in any interval of the window's length stay within the limit, for every
  -- timeline of requests.
  pub sliding_log_never_exceeds :
      (key : Bytes) (limit : ℕ) (window ttl : Duration) (start lo : Time) (m : Memory F)
      (rs : List Request)
      → IsWindow window
      → window ≤ℤ ttl
      → find key m ≡ none
      → IsTimeline limit start rs
      → admitted lo (lo +ℤ window) rs (decided key limit window ttl m rs) ≤ limit
  sliding_log_never_exceeds key limit window ttl start lo m rs w long empty line =
      rw (sliding_log_counts_exactly key limit window ttl start m rs w long empty line)
        (admitted-le limit window lo rs)
