-- ===== src/Memory/SlidingLog/Promise.antt =====
-- store/memory.go: what AllowSlidingWindowLog promises, and the log that it keeps for it.
use rateshield.Prelude.{
  ℕ, ◌+◌, ◌≤◌, ◌≡◌, refl, sym, ◌∙◌, ap, arith, pos, ◌+ℤ◌, ◌-ℤ◌, ◌≤ℤ◌, ◌<ℤ◌, +ℤ_parts, -ℤ_parts,
  eq_of_parts, int64, int64-id, sum_fits, int_laws, leb_iff, ap₂, Bool, true, false, Option, none,
  some, List, [], ◌∷◌, ◌++◌, Bytes, leb, leb_ℤ, if◌then◌else◌, Bool-cases, inl, inr, All, All-map,
  length, length-append, length-replicate, replicate, drop,
}
use rateshield.Go.Time.{Time, Duration, after, add}
use rateshield.Go.Float.{Float64}
use rateshield.Memory.{Memory, MemEntry}
use rateshield.Memory.Window.{live}
use rateshield.Memory.Window.Order.{IsWindow}
use rateshield.Memory.Requests.{Request, lets_through}
use rateshield.Memory.SlidingLog.{
  window_start, cutoff, log_entry, eval_sliding_window_log, allow_sliding_window_log,
}
use rateshield.Memory.SlidingLog.Evict.{
  filter_after, IsSorted, evict-filter, filter_after-IsSorted, filter_after-filter_after,
  filter_after-append, filter_after-replicate, filter_after_none, length-filter_after-le,
  append_times-replicate, append-replicate-All, append-replicate-IsSorted,
}

-- The timestamp of every unit admitted so far.
abbrev pub Log : Type 0
Log = List Time

-- The promise: a request passes if and only if the units admitted in the window that ends with it
-- leave room for it.
abbrev pub has_room : ℕ → Duration → Log → Request → Bool
has_room limit window h r = leb (length (filter_after (r.at -ℤ window) h) + r.n) limit

abbrev pub record_request : Bool → Log → Request → Log
record_request admitted h r = if admitted then h ++ replicate r.n r.at else h

unfoldable pub promised : ℕ → Duration → Log → List Request → List Bool
promised limit window h [] = []
promised limit window h (r ∷ rs) =
    let b = has_room limit window h r in b ∷ promised limit window (record_request b h r) rs

-- The start of the window, where an int64 holds the duration.
window_start-eq :
    (t : Time) (window : Duration) → IsWindow window → window_start t window ≡ t -ℤ window
unfolding window_start
window_start-eq t window w =
    rw
      (int64-id (pos 0 -ℤ window)
        (record { above = omega (int_laws, w.fits); below = omega (int_laws, w.positive) }))
      (eq_of_parts _ _ (omega int_laws))

-- What the evaluation starts from at `t`, once the log is evicted.
pub record Starts (limit : ℕ) (window : Duration) (t : Time) (h : Log) (kept : List Time)
    : Type 0 where
  pub kept_is : kept ≡ filter_after (t -ℤ window) h
  pub bounded : length kept ≤ limit
  pub sorted : IsSorted h
  pub past : All (λ s. s ≤ℤ t) h

module _ {F : Type 0} ⦃fl : Float64 F⦄ where
  -- What the store decides about the requests of a key, one after the other.
  unfoldable pub decided : Bytes → ℕ → (window ttl : Duration) → Memory F → List Request → List Bool
  decided key limit window ttl m [] = []
  decided key limit window ttl m (r ∷ rs) =
      let (res, m', clock') =
        allow_sliding_window_log none key (pos limit) window (pos r.n) ttl (λ _. r.at) m in
      lets_through res ∷ decided key limit window ttl m' rs

  -- The log of an entry holds what was admitted after some start that is out of the window by now.
  pub record EntryTracks (limit : ℕ) (window ttl : Duration) (last : Time) (h : Log)
      (e : MemEntry F) : Type 0 where
    pub start : Time
    pub holds : e.requests ≡ filter_after start h
    pub started : start ≤ℤ last -ℤ window
    pub bounded : length e.requests ≤ limit
    pub expires : e.expires_at ≡ add last ttl
    pub sorted : IsSorted h
    pub past : All (λ s. s ≤ℤ last) h

  abbrev pub Tracks : ℕ → (window ttl : Duration) → Time → Log → Option (MemEntry F) → Type 0
  Tracks limit window ttl last h none = h ≡ []
  Tracks limit window ttl last h (some e) = EntryTracks limit window ttl last h e

  -- What is left of the log of a key after the eviction at `t`.
  abbrev pub kept_at : Duration → Time → Option (MemEntry F) → List Time
  kept_at window t o =
      let rs = (log_entry t (live t o)).requests in drop (cutoff (window_start t window) rs) rs

  pub kept-Starts :
      (limit : ℕ) (window ttl : Duration) (last t : Time) (h : Log) (o : Option (MemEntry F))
      → IsWindow window
      → window ≤ℤ ttl
      → last ≤ℤ t
      → Tracks limit window ttl last h o
      → Starts limit window t h (kept_at window t o)
  unfolding log_entry live cutoff
  kept-Starts limit window ttl last t h none w long le k = record {
    kept_is = rw k (unfold filter_after in refl);
    bounded = omega arith;
    sorted = rw k tt;
    past = rw k tt;
  }
  kept-Starts limit window ttl last t h (some e) w long le k =
      let start = t -ℤ window in
      let all_past : All (λ s. s ≤ℤ t) h = All-map _ _ (λ s le'. omega (arith, le', le)) h k.past in
      elim (Bool-cases (after t e.expires_at)) [
        | inl old ↦ rw old (record {
          kept_is = sym (
              filter_after_none start last h
                (ground (arith, k.expires, +ℤ_parts last ttl, -ℤ_parts t window)) k.past);
          bounded = omega arith;
          sorted = k.sorted;
          past = all_past;
        })
        | inr young ↦
            let rs = e.requests in
            let in_order : IsSorted rs = rw k.holds (filter_after-IsSorted k.start h k.sorted) in
            let kept : drop (cutoff (window_start t window) rs) rs ≡ filter_after start h =
              rw (window_start-eq t window w) (evict-filter start rs in_order)
              ∙ ap (filter_after start) k.holds
              ∙ filter_after-filter_after k.start start h
                  (omega (arith, k.started, -ℤ_parts t window, -ℤ_parts last window)) in
            rw young (record {
              kept_is = kept;
              bounded =
                  rw (window_start-eq t window w, evict-filter start rs in_order)
                    (omega (arith, length-filter_after-le start rs, k.bounded));
              sorted = k.sorted;
              past = all_past;
            })
      ]

  -- The evaluation decides as promised, and the entry that it leaves keeps track.
  pub eval-Tracks :
      (limit : ℕ) (window ttl : Duration) (t : Time) (n : ℕ) (h : Log) (o : Option (MemEntry F))
      → IsWindow window
      → limit + n ≤ 9223372036854775807
      → Starts limit window t h (kept_at window t o)
      → let r : Request = record { at = t; n = n } in
        let (res, e) = eval_sliding_window_log (pos limit) window ttl (pos n) t o in
        (res.allowed ≡ has_room limit window h r)
        × EntryTracks limit window ttl t (record_request (has_room limit window h r) h r) e
  unfolding eval_sliding_window_log
  eval-Tracks limit window ttl t n h o w fits s =
      let start = t -ℤ window in
      let kept = kept_at window t o in
      let sum : int64 (pos (length kept) +ℤ pos n) ≡ pos (length kept + n) =
        sum_fits limit (length kept) n s.bounded fits in
      let same : length kept ≡ length (filter_after start h) = ap length s.kept_is in
      let lt : start <ℤ t = omega (arith, -ℤ_parts t window, w.positive) in
      elim (Bool-cases (leb (length (filter_after start h) + n) limit)) [
        | inl room ↦
            let passes : leb_ℤ (int64 (pos (length kept) +ℤ pos n)) (pos limit) ≡ true =
              ground (arith, sum, same) in
            let holds =
              append_times-replicate n t kept
              ∙ ap₂ ◌++◌ s.kept_is (sym (filter_after-replicate start t n lt))
              ∙ sym (filter_after-append start h (replicate n t)) in
            rw (passes, room)
              (
                refl,
                record {
                  start = start;
                  holds = holds;
                  started = omega arith;
                  bounded = omega (
                    arith,
                    ap length (append_times-replicate n t kept),
                    length-append kept (replicate n t),
                    length-replicate n t,
                    same,
                    (leb_iff _ _).0 room,
                  );
                  expires = refl;
                  sorted = append-replicate-IsSorted t n t h (omega arith) s.past s.sorted;
                  past = append-replicate-All t n t h (omega arith) s.past;
                },
              )
        | inr full ↦
            let refuses : leb_ℤ (int64 (pos (length kept) +ℤ pos n)) (pos limit) ≡ false =
              ground (arith, sum, same) in
            rw (refuses, full)
              (
                refl,
                record {
                  start = start;
                  holds = s.kept_is;
                  started = omega arith;
                  bounded = s.bounded;
                  expires = refl;
                  sorted = s.sorted;
                  past = s.past;
                },
              )
      ]
