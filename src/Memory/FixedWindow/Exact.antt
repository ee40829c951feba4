-- ===== src/Memory/FixedWindow/Exact.antt =====
-- store/memory.go: AllowFixedWindow keeps its quota, for all requests of a key.
use rateshield.Prelude.{
  ℕ, ◌+◌, ◌≤◌, ◌≡◌, refl, ap₂, arith, ℤ, pos, eq_ℤ, eq_of_parts, Bool, ◌&&◌, none, some, List, [],
  ◌∷◌, Bytes, if◌then◌else◌, Bool-cases, inl, inr,
}
use rateshield.Go.Time.{Time, Duration}
use rateshield.Go.Float.{Float64}
use rateshield.Memory.{Memory, find, put}
use rateshield.Memory.Shards.{find-put_self}
use rateshield.Memory.Window.{current_window_num}
use rateshield.Memory.Window.Order.{InEra, IsWindow}
use rateshield.Memory.Requests.{Request, IsTimeline}
use rateshield.Memory.FixedWindow.{eval_fixed_window, allow_fixed_window}
use rateshield.Memory.FixedWindow.Quota.{
  History, used, has_room, record_request, promised, decided, Tracks, entry-Starts, eval-Tracks,
}

module _ {F : Type 0} ⦃fl : Float64 F⦄ where
  decided-promised :
      (key : Bytes) (limit : ℕ) (window ttl : Duration) (last : Time) (h : History) (m : Memory F)
      (rs : List Request)
      → IsWindow window
      → InEra last
      → Tracks limit window last h (find key m)
      → IsTimeline limit last rs
      → decided key limit window ttl m rs ≡ promised limit window h rs
  unfolding decided promised allow_fixed_window
  decided-promised key limit window ttl last h m [] w el k line = refl
  decided-promised key limit window ttl last h m (r ∷ rs) w el k (le, et, fits, line) =
      let o = find key m in
      let (res, e) = eval_fixed_window (pos limit) window (pos r.n) r.at o in
      let h' = record_request (has_room limit window h r) window h r in
      let (same, tracks) =
        eval-Tracks limit window r.at r.n h o fits
          (entry-Starts limit window last r.at h o w el et le k) in
      let stored : find key (put key e m) ≡ some e = find-put_self key e m in
      let kept : Tracks limit window r.at h' (find key (put key e m)) = rw stored tracks in
      ap₂ ◌∷◌ same (decided-promised key limit window ttl r.at h' (put key e m) rs w et kept line)

  -- For a key with no entry yet, a positive window and a timeline that starts between 1970 and
  -- 2262, the store lets a request of the timeline through if and only if the units that it has
  -- admitted to the key in the request's window leave room for it under the limit.
  pub fixed_window_keeps_quota :
      (key : Bytes) (limit : ℕ) (window ttl : Duration) (start : Time) (m : Memory F)
      (rs : List Request)
      → IsWindow window
      → InEra start
      → find key m ≡ none
      → IsTimeline limit start rs
      → decided key limit window ttl m rs ≡ promised limit window [] rs
  fixed_window_keeps_quota key limit window ttl start m rs w es empty line =
      decided-promised key limit window ttl start [] m rs w es (rw empty (λ v. refl)) line

-- The units of the requests of one window that were let through.
abbrev pub admitted : ℤ → Duration → List Request → List Bool → ℕ
admitted w window [] bs = 0
admitted w window (r ∷ rs) [] = 0
admitted w window (r ∷ rs) (b ∷ bs) =
    (if b && eq_ℤ (current_window_num r.at window) w then r.n else 0) + admitted w window rs bs

promised-le :
    (limit : ℕ) (window : Duration) (w : ℤ) (h : History) (rs : List Request)
    → used w h ≤ limit
    → used w h + admitted w window rs (promised limit window h rs) ≤ limit
unfolding promised
promised-le limit window w h [] le = omega arith
promised-le limit window w h (r ∷ rs) le =
    let b = has_room limit window h r in
    let num = current_window_num r.at window in
    elim (Bool-cases (eq_ℤ num w)) [
      | inl here ↦
          let e : num ≡ w = eq_of_parts num w (ground arith) in
          ground (arith, e, promised-le limit window w (record_request b window h r) rs)
      | inr there ↦ ground (arith, promised-le limit window w (record_request b window h r) rs)
    ]

module _ {F : Type 0} ⦃fl : Float64 F⦄ where
  -- For a key with no entry yet, a positive window and a timeline that starts between 1970 and
  -- 2262, the units that the store lets through in any one window stay within the limit.
  pub fixed_window_never_exceeds :
      (key : Bytes) (limit : ℕ) (window ttl : Duration) (start : Time) (m : Memory F)
      (rs : List Request) (w : ℤ)
      → IsWindow window
      → InEra start
      → find key m ≡ none
      → IsTimeline limit start rs
      → admitted w window rs (decided key limit window ttl m rs) ≤ limit
  fixed_window_never_exceeds key limit window ttl start m rs w iw es empty line =
      rw (fixed_window_keeps_quota key limit window ttl start m rs iw es empty line)
        (omega (arith, promised-le limit window w [] rs (omega arith)))
