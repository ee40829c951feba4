-- ===== src/Redis/FixedWindow/Counted.antt =====
-- store/redis.go: what fwScript makes of the counter of its window, in the reply and in the store.
use rateshield.Prelude.{
  ℕ, zero, suc, ◌+◌, ◌≤◌, ◌≡◌, refl, ◌∙◌, arith, ℤ, pos, ◌+ℤ◌, ◌-ℤ◌, ◌*ℤ◌, ◌≤ℤ◌, ◌<ℤ◌, eq_ℤ, leb_ℤ,
  plus_pos, true, false, none, some, Bytes, bytes_eq, leb, if◌then◌else◌, Bool-cases, inl, inr,
}
use rateshield.Go.{Outcome, ok}
use rateshield.Redis.Commands.{
  Commands, IsRedis, Stored, Value, number, live_at, value_of, deadline_of,
}
use rateshield.Redis.Scripts.{Reply, flag, window_reply, fw_counted, fw_refused}
use rateshield.Redis.FixedWindow.Step.{
  TracksStored, live-TracksStored, value-TracksStored, deadline-TracksStored, in_range, Holds,
  Holds-self, Holds-pexpire, Holds-incr_by, Holds-decr_by,
}

not_before :
    {F : Type 0} (t keep x : ℤ) (v : Value F)
    → t <ℤ keep
    → keep ≤ℤ x
    → live_at t (some (v, some x)) ≡ some (v, some x)
not_before t keep x v lt le = ground arith

taken_back : (u n : ℕ) → pos (u + n) -ℤ pos n ≡ pos u
unfolding ◌-ℤ◌
taken_back u n = ground arith

-- The deadline of a counter, if it has one, has not passed.
live-deadline :
    {F : Type 0} (limit : ℕ) (keep : ℤ) (u : ℕ) (t : ℤ) (v : Value F) (o : Stored F)
    → TracksStored limit keep u o
    → t <ℤ keep
    → live_at t (some (v, deadline_of o)) ≡ some (v, deadline_of o)
live-deadline limit keep u t v none h lt = refl
live-deadline limit keep u t v (some (number w, some x)) h lt = not_before t keep x v lt h.2
live-deadline limit keep u t v _ h lt = absurd h

module _ {F : Type 0} (c : Commands F) (redis : IsRedis c) where
  open redis use {read}

  -- What a run decides of `n` units where `u` are admitted, and what it leaves under the key.
  pub record Decides (k : Bytes) (limit : ℕ) (keep : ℤ) (u n : ℕ) (d : c.D)
      (run : Outcome Reply × c.D) : Type 0 where
    pub reply : Reply
    pub returns : run.0 ≡ ok reply
    pub allowed : reply.allowed ≡ flag (leb (u + n) limit)
    pub tracks : TracksStored limit keep (if leb (u + n) limit then u + n else u) (read k run.1)
    pub others : (j : Bytes) → bytes_eq k j ≡ false → read j run.1 ≡ read j d

  module _ (k : Bytes) (limit u n : ℕ) (keep t ms : ℤ) (d : c.D)
      (tracks : TracksStored limit keep u (read k d)) (fits : limit + n ≤ 9223372036854775807)
      (before : t <ℤ keep) (long : keep ≤ℤ t +ℤ ms) (wide : pos 1 ≤ℤ ms) where
    abbrev pub expiring : c.D
    expiring =
        let d' = (c.incr_by t k (pos n) d).1 in
        if eq_ℤ (pos (u + n)) (pos n) then c.pexpire t k ms d' else d'

    pub counted :
        ((c.incr_by t k (pos n) d).0 ≡ ok (pos (u + n)))
        × Holds c redis k d
            (number (pos (u + n)))
            (deadline_of (read k d))
            (c.incr_by t k (pos n) d).1
    counted =
        let (value, le) = value-TracksStored limit keep u (read k d) tracks in
        let sum : value_of (read k d) +ℤ pos n ≡ pos (u + n) = rw value (plus_pos u n) in
        let (live, kind) = live-TracksStored limit keep u t (read k d) tracks before in
        rw (← sum)
          (Holds-incr_by c redis t k d (pos n) live kind (rw sum (in_range (u + n) (omega arith))))

    -- The counter has a deadline after its window, whether it is new or not.
    pub expiring-Holds :
        (x : ℤ) × (keep ≤ℤ x) × Holds c redis k d (number (pos (u + n))) (some x) expiring
    expiring-Holds = of_units u tracks counted.1
      where
        of_units :
            (u : ℕ)
            → TracksStored limit keep u (read k d)
            → Holds c redis k d
                (number (pos (u + n)))
                (deadline_of (read k d))
                (c.incr_by t k (pos n) d).1
            → (x : ℤ) × (keep ≤ℤ x)
              × Holds c redis k d (number (pos (u + n))) (some x) (
                  let d' = (c.incr_by t k (pos n) d).1 in
                  if eq_ℤ (pos (u + n)) (pos n) then c.pexpire t k ms d' else d')
        of_units zero tracks h =
            let fresh : eq_ℤ (pos (0 + n)) (pos n) ≡ true = ground arith in
            let live =
              live-deadline limit keep 0 t (number (pos (0 + n))) (read k d) tracks before in
            (
              t +ℤ ms,
              long,
              rw fresh (
                  Holds-pexpire c redis t k d (number (pos (0 + n))) ms (deadline_of (read k d))
                    (c.incr_by t k (pos n) d).1 h live wide),
            )
        of_units (suc u) tracks h =
            let fresh : eq_ℤ (pos (suc u + n)) (pos n) ≡ false = ground arith in
            let (x, same, le) = deadline-TracksStored limit keep u (read k d) tracks in
            (x, le, rw (fresh, ← same) h)

    Holds-Decides :
        (v : ℕ) (x : ℤ) (d' : c.D) (run : Outcome Reply × c.D) (r : Reply)
        → run ≡ (ok r, d')
        → r.allowed ≡ flag (leb (u + n) limit)
        → v ≡ (if leb (u + n) limit then u + n else u)
        → v ≤ limit
        → keep ≤ℤ x
        → Holds c redis k d (number (pos v)) (some x) d'
        → Decides k limit keep u n d run
    Holds-Decides v x d' run r e allowed left le later h =
        let self = Holds-self c redis k d (number (pos v)) (some x) d' h in
        rw e (record {
          reply = r;
          returns = refl;
          allowed = allowed;
          tracks = rw (self, ← left) (refl, le, later);
          others = λ j other. h j ∙ rw other refl;
        })

    -- A request that fits is counted, another one is taken back.
    pub counted-Decides :
        (window_ms window_end now : ℤ)
        → window_ms *ℤ pos 2 ≡ ms
        → Decides k limit keep u n d (
            fw_counted c t k (pos limit) window_ms window_end now (pos n) (c.incr_by t k (pos n) d))
    unfolding fw_counted fw_refused
    counted-Decides window_ms window_end now twice =
        let (x, le, h) = expiring-Holds in
        let run =
          fw_counted c t k (pos limit) window_ms window_end now (pos n) (c.incr_by t k (pos n) d) in
        let test : leb_ℤ (pos (u + n)) (pos limit) ≡ leb (u + n) limit = ground arith in
        let live = not_before t keep x (number (pos (u + n))) before le in
        let back = taken_back u n in
        let bound = (value-TracksStored limit keep u (read k d) tracks).1 in
        let (value, h') =
          Holds-decr_by c redis t k d (pos (u + n)) (pos n) (some x) expiring h live
            (rw back (in_range u (omega arith))) in
        elim (Bool-cases (leb (u + n) limit)) [
          | inl room ↦
              Holds-Decides (u + n) x expiring run
                (window_reply true (pos (u + n)) (pos limit) window_end now)
                (rw (counted.0, twice, test, room) refl) (rw room refl) (rw room refl)
                (ground arith) le h
          | inr full ↦
              Holds-Decides u x (c.decr_by t k (pos n) expiring).1 run
                (window_reply false (pos (u + n) -ℤ pos n) (pos limit) window_end now)
                (rw (counted.0, twice, test, full, value) refl) (rw full refl) (rw full refl) bound
                le (rw (← back) h')
        ]
