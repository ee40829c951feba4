-- ===== src/Redis/SlidingLog/Outcomes.antt =====
-- store/redis.go: what the log and the sequence number of a key hold after a run of swlScript.
use rateshield.Prelude.{
  ℕ, zero, suc, ◌+◌, ◌≤◌, ◌≡◌, refl, ap, ◌∙◌, arith, ℤ, pos, ◌+ℤ◌, ◌-ℤ◌, ◌≤ℤ◌, leb_ℤ, ltb_ℤ,
  +ℤ_parts, -ℤ_parts, true, none, some, List, [], ◌∷◌, ◌++◌, Bytes, if◌then◌else◌, length,
  length-append, length-replicate, replicate, All, Bool-cases, inl, inr,
}
use rateshield.Go.Time.{Time}
use rateshield.Memory.SlidingLog.Evict.{filter_after, filter_after-append, append-replicate-All}
use rateshield.Memory.SlidingLog.Promise.{Log}
use rateshield.Redis.Commands.{
  Stored, number, bucket, sorted, live_at, value_of, members_of, deadline_of, is_number, is_sorted,
  set_of, scored_above, with_deadline,
}
use rateshield.Redis.FixedWindow.History.{IsNear}
use rateshield.Redis.SlidingLog.Contents.{AreKept, Contents, Seen}
use rateshield.Redis.SlidingLog.Members.{
  AreNumbered, scored_above-AreNumbered, scored_above-scored_above,
}
use rateshield.Redis.SlidingLog.State.{members_of-set_of}

AreKept-set_of :
    (F : Type 0) (keep x y v : ℤ) (ms : List (Bytes × ℤ))
    → keep ≤ℤ x
    → x ≤ℤ y
    → AreKept {F = F} keep (set_of ms (some x)) (some (number v, some y))
AreKept-set_of F keep x y v [] h k = tt
AreKept-set_of F keep x y v (m ∷ ms) h k = (h, k)

module _ {F : Type 0} where
  live_numbered :
      (t : ℤ) (n : ℕ) (log : Stored F)
      → AreNumbered n (members_of log)
      → AreNumbered n (members_of (live_at t log))
  live_numbered t n none h = tt
  live_numbered t n (some (v, none)) h = h
  live_numbered t n (some (v, some x)) h = elim (Bool-cases (ltb_ℤ x t)) [
    | inl old ↦ rw old tt
    | inr young ↦ rw young h
  ]

  AreKept-evicted :
      (keep t max : ℤ) (log seq : Stored F)
      → AreKept keep log seq
      → let live = live_at t log in
        AreKept keep (set_of (scored_above max (members_of live)) (deadline_of live)) seq
  AreKept-evicted keep t max none seq h = tt
  AreKept-evicted keep t max (some (sorted [], none)) seq h = tt
  AreKept-evicted keep t max (some (sorted [], some x)) seq h = elim (Bool-cases (ltb_ℤ x t)) [
    | inl old ↦ rw old tt
    | inr young ↦ rw young tt
  ]
  AreKept-evicted keep t max (some (sorted (m ∷ ms), some x)) (some (number v, some y)) h =
      elim (Bool-cases (ltb_ℤ x t)) [
        | inl old ↦ rw old tt
        | inr young ↦ rw young (AreKept-set_of F keep x y v (scored_above max (m ∷ ms)) h.0 h.1)
      ]
  AreKept-evicted keep t max _ _ h = absurd h

  pub with_deadline_kinds :
      (x : ℤ) (o : Stored F)
      → (is_sorted (with_deadline x o) ≡ is_sorted o)
        × (members_of (with_deadline x o) ≡ members_of o)
        × (is_number (with_deadline x o) ≡ is_number o)
        × (value_of (with_deadline x o) ≡ value_of o)
  with_deadline_kinds x none = (refl, refl, refl, refl)
  with_deadline_kinds x (some (number v, y)) = (refl, refl, refl, refl)
  with_deadline_kinds x (some (bucket v w, y)) = (refl, refl, refl, refl)
  with_deadline_kinds x (some (sorted ms, y)) = (refl, refl, refl, refl)

  AreKept-with_deadline :
      (keep x : ℤ) (n : ℕ) (log seq : Stored F)
      → is_sorted log ≡ true
      → AreNumbered n (members_of log)
      → value_of seq ≡ pos n
      → is_number seq ≡ true
      → keep ≤ℤ x
      → AreKept keep (with_deadline x log) (with_deadline x seq)
  AreKept-with_deadline keep x n none seq kind numbered value number_kind le = tt
  AreKept-with_deadline keep x n (some (sorted [], y)) seq kind numbered value number_kind le = tt
  AreKept-with_deadline keep x n (some (sorted (m ∷ ms), y)) none kind numbered value number_kind
        le =
      ground (arith, numbered.0.3, numbered.0.4)
  AreKept-with_deadline keep x n (some (sorted (m ∷ ms), y)) (some (number v, z)) kind numbered
        value number_kind le =
      (le, omega arith)
  AreKept-with_deadline keep x n _ _ kind numbered value number_kind le = cc

length-filter_after-replicate :
    (z : Time) (n : ℕ) (t : Time)
    → length (filter_after z (replicate n t)) ≡ (if leb_ℤ t z then 0 else n)
unfolding filter_after
length-filter_after-replicate z zero t = ground arith
length-filter_after-replicate z (suc n) t = ground (arith, length-filter_after-replicate z n t)

module _ {F : Type 0} (b skew ttl last a : ℕ) (t : ℤ) (h : Log) (later : last ≤ a) where
  -- A run that refuses.
  pub refused-Contents :
      (log seq : Stored F)
      → Contents b skew ttl last h log seq
      → Seen b a t h log seq
      → let live = live_at t log in
        Contents b skew ttl a h
          (set_of (scored_above (pos a -ℤ pos b) (members_of live)) (deadline_of live))
          seq
  refused-Contents log seq k s =
      let live = live_at t log in
      let ms = scored_above (pos a -ℤ pos b) (members_of live) in
      let (members, kind) = members_of-set_of F ms (deadline_of live) in
      record {
        n = k.n;
        few = k.few;
        set_kind = kind;
        seq_kind = k.seq_kind;
        seq_value = k.seq_value;
        numbered = rw members (
            scored_above-AreNumbered (pos a -ℤ pos b) k.n (members_of live)
              (live_numbered t k.n log k.numbered));
        counts = λ z le.
            rw (members, scored_above-scored_above (pos a -ℤ pos b) z (members_of live) le)
              (s.counts z le);
        latest = k.latest;
        no_later = omega (arith, k.no_later);
        past = k.past;
        kept = AreKept-evicted (pos (k.latest + ttl) -ℤ pos skew) t (pos a -ℤ pos b) log seq k.kept;
      }

  -- A run that admits `r` units, of the log and the sequence number before PEXPIRE.
  pub admitted-Contents :
      (log seq : Stored F) (n r : ℕ)
      → IsNear skew a t
      → All (λ s. s ≤ℤ pos a) h
      → n ≤ length h + r
      → is_sorted log ≡ true
      → is_number seq ≡ true
      → value_of seq ≡ pos n
      → AreNumbered n (members_of log)
      → ((z : ℤ)
          → pos a -ℤ pos b ≤ℤ z
          → length (scored_above z (members_of log))
            ≡ length (filter_after z h) + (if leb_ℤ (pos a) z then 0 else r))
      → Contents b skew ttl a
          (h ++ replicate r (pos a))
          (with_deadline (t +ℤ pos ttl) log)
          (with_deadline (t +ℤ pos ttl) seq)
  admitted-Contents log seq n r near past few kind number_kind value numbered counts =
      let (kind_same, members_same, _, _) = with_deadline_kinds (t +ℤ pos ttl) log in
      let (_, _, number_same, value_same) = with_deadline_kinds (t +ℤ pos ttl) seq in
      let late = near.late in
      record {
        n = n;
        few = omega (arith, few, length-append h (replicate r (pos a)), length-replicate r (pos a));
        set_kind = kind_same ∙ kind;
        seq_kind = number_same ∙ number_kind;
        seq_value = value_same ∙ value;
        numbered = rw members_same numbered;
        counts = λ z le. rw members_same (
            omega (
              arith,
              counts z le,
              ap length (filter_after-append z h (replicate r (pos a))),
              length-append (filter_after z h) (filter_after z (replicate r (pos a))),
              length-filter_after-replicate z r (pos a),
            ));
        latest = a;
        no_later = omega arith;
        past = append-replicate-All (pos a) r (pos a) h (omega arith) past;
        kept =
            AreKept-with_deadline (pos (a + ttl) -ℤ pos skew) (t +ℤ pos ttl) n log seq kind numbered
              value number_kind
              (omega (
                arith,
                late,
                -ℤ_parts (pos (a + ttl)) (pos skew),
                +ℤ_parts t (pos skew),
                +ℤ_parts t (pos ttl),
              ));
      }
