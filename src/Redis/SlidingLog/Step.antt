-- ===== src/Redis/SlidingLog/Step.antt =====
-- store/redis.go: one run of swlScript against the log of the units that were admitted.
use rateshield.Prelude.{
  ℕ, ◌+◌, ◌*◌, ◌≤◌, ◌≡◌, refl, ap, ◌∙◌, arith, ℤ, pos, negsuc, ◌+ℤ◌, ◌-ℤ◌, ◌≤ℤ◌, leb_ℤ, plus_pos,
  Bool, true, false, none, some, List, ◌++◌, Bytes, bytes_eq_refl, leb, if◌then◌else◌, length,
  replicate, All, All-map, Bool-cases, inl, inr, ltb_ℤ,
}
use rateshield.Go.{ok}
use rateshield.Memory.SlidingLog.Evict.{filter_after}
use rateshield.Memory.SlidingLog.Promise.{Log}
use rateshield.Redis.Commands.{
  Commands, IsRedis, Stored, sorted, live_at, members_of, deadline_of, is_sorted, set_of,
  scored_above, with_deadline,
}
use rateshield.Redis.Sets.{HasSets, score_at}
use rateshield.Redis.Scripts.{Reply, flag, after-ok}
use rateshield.Redis.Scripts.Log.{log_key, seq_key, add_units, swl_run, admit, wait_for_log}
use rateshield.Redis.FixedWindow.History.{IsNear}
use rateshield.Redis.SlidingLog.Contents.{Contents, Seen, Contents-Seen}
use rateshield.Redis.SlidingLog.Members.{scored_above-AreNumbered, scored_above-scored_above}
use rateshield.Redis.SlidingLog.Outcomes.{refused-Contents, admitted-Contents, with_deadline_kinds}
use rateshield.Redis.SlidingLog.State.{At, add_units-At, live-set_of, members_of-set_of, other_keys}

live_sorted :
    {F : Type 0} (t : ℤ) (o : Stored F) → is_sorted o ≡ true → is_sorted (live_at t o) ≡ true
live_sorted t none h = refl
live_sorted t (some (sorted ms, none)) h = refl
live_sorted t (some (sorted ms, some x)) h = ground arith
live_sorted t _ h = cc

module _ {F : Type 0} (c : Commands F) (redis : IsRedis c) (sets : HasSets c redis) (key : Bytes)
    (limit b skew ttl : ℕ) where
  open redis use {read, read-pexpire}
  open sets use {
    zremrangebyscore-ok, read-zremrangebyscore, zcard-ok, read-zcard, zrange-ok, read-zrange,
  }

  -- What the server has of the key, after the requests up to `last`.
  abbrev pub Tracks : (last : ℕ) → Log → c.D → Type 0
  Tracks last h d = Contents b skew ttl last h (read (log_key key) d) (read (seq_key key) d)

  module _ (a r last : ℕ) (h : Log) (d : c.D) (t : ℤ) (tracks : Tracks last h d) (later : last ≤ a)
      (near : IsNear skew a t) (long : b + 2 * skew ≤ ttl) (wide : 1 ≤ b) where
    abbrev log : Stored F
    log = read (log_key key) d

    abbrev seq : Stored F
    seq = read (seq_key key) d

    seen : Seen b a t h log seq
    seen = Contents-Seen b skew ttl last a t h later near long log seq tracks

    -- the members that ZREMRANGEBYSCORE leaves, and the log and the server with them
    abbrev kept_members : List (Bytes × ℤ)
    kept_members = scored_above (pos a -ℤ pos b) (members_of (live_at t log))

    abbrev kept_log : Stored F
    kept_log = set_of kept_members (deadline_of (live_at t log))

    abbrev evicted : c.D
    evicted = (c.zremrangebyscore t (log_key key) (pos a -ℤ pos b) d).1

    abbrev asked : c.D
    asked = (c.zcard t (log_key key) evicted).1

    evicted_log : read (log_key key) evicted ≡ kept_log
    evicted_log =
        read-zremrangebyscore t (log_key key) (pos a -ℤ pos b) d (log_key key) seen.set_kind
        ∙ rw (bytes_eq_refl (log_key key)) refl

    evicted_live : live_at t (read (log_key key) evicted) ≡ kept_log
    evicted_live = ap (live_at t) evicted_log ∙ live-set_of t kept_members log

    asked_log : read (log_key key) asked ≡ kept_log
    asked_log = read-zcard t (log_key key) evicted (log_key key) ∙ evicted_log

    asked_live : live_at t (read (log_key key) asked) ≡ kept_log
    asked_live = ap (live_at t) asked_log ∙ live-set_of t kept_members log

    asked-seq : read (seq_key key) asked ≡ seq
    asked-seq =
        read-zcard t (log_key key) evicted (seq_key key)
        ∙ read-zremrangebyscore t (log_key key) (pos a -ℤ pos b) d (seq_key key) seen.set_kind
        ∙ rw ((other_keys c redis sets t key).0) refl

    kept_kinds : (members_of kept_log ≡ kept_members) × (is_sorted kept_log ≡ true)
    kept_kinds = members_of-set_of F kept_members (deadline_of (live_at t log))

    -- ZCARD counts the units of the window.
    card : (c.zcard t (log_key key) evicted).0 ≡ ok (pos (length (filter_after (pos a -ℤ pos b) h)))
    card =
        zcard-ok t (log_key key) evicted (rw (evicted_live, kept_kinds.1) refl)
        ∙ rw (evicted_live, kept_kinds.0, seen.counts (pos a -ℤ pos b) (omega arith)) refl

    asked-At : At c redis sets t key seen.n kept_members asked
    asked-At = record {
      set_kind = rw asked_live kept_kinds.1;
      members = rw asked_live kept_kinds.0;
      seq_kind = rw asked-seq seen.seq_kind;
      seq_value = rw asked-seq seen.seq_value;
      numbered =
          scored_above-AreNumbered (pos a -ℤ pos b) seen.n (members_of (live_at t log))
            seen.numbered;
    }

    -- A look at the log reads a score and changes nothing.
    zrange-Tracks :
        (place : ℤ) (h' : Log) (d' : c.D)
        → is_sorted (live_at t (read (log_key key) d')) ≡ true
        → Tracks a h' d'
        → let run = c.zrange t (log_key key) place d' in
          (run.0 ≡ ok (score_at place (members_of (live_at t (read (log_key key) d')))))
          × Tracks a h' run.1
          × (is_sorted (live_at t (read (log_key key) run.1)) ≡ true)
    zrange-Tracks place h' d' kind k = (
      zrange-ok t (log_key key) place d' kind,
      rw
          (
            read-zrange t (log_key key) place d' (log_key key),
            read-zrange t (log_key key) place d' (seq_key key),
          )
          k,
      rw (read-zrange t (log_key key) place d' (log_key key)) kind,
    )

    asked-Tracks : Tracks a h asked
    asked-Tracks =
        rw (asked_log, asked-seq) (refused-Contents b skew ttl last a t h later log seq tracks seen)

    -- The branch of a request that fits.
    admit-Tracks :
        length h + r ≤ 9223372036854775807
        → let run = admit c t key (pos a) (pos r) (pos ttl) asked in
          (run.0 ≡ ok tt)
          × Tracks a (h ++ replicate r (pos a)) run.1
          × (is_sorted (live_at t (read (log_key key) run.1)) ≡ true)
    unfolding admit
    admit-Tracks fits =
        let (done, ms, at, counts) =
          add_units-At c redis sets t key (pos a) r 1 seen.n kept_members asked
            (omega (arith, seen.few)) asked-At in
        let d3 = (add_units c t key (pos a) r 1 asked).1 in
        let d4 = c.pexpire t (log_key key) (pos ttl) d3 in
        let d5 = c.pexpire t (seq_key key) (pos ttl) d4 in
        let (apart, apart') = other_keys c redis sets t key in
        let lasts : pos 1 ≤ℤ pos ttl = omega arith in
        let log_new : read (log_key key) d5
            ≡ with_deadline (t +ℤ pos ttl) (live_at t (read (log_key key) d3)) =
          read-pexpire t (seq_key key) (pos ttl) d4 (log_key key) lasts
          ∙ rw apart' (
              read-pexpire t (log_key key) (pos ttl) d3 (log_key key) lasts
              ∙ rw (bytes_eq_refl (log_key key)) refl) in
        let seq_kept : read (seq_key key) d4 ≡ read (seq_key key) d3 =
          read-pexpire t (log_key key) (pos ttl) d3 (seq_key key) lasts ∙ rw apart refl in
        let seq_new : read (seq_key key) d5
            ≡ with_deadline (t +ℤ pos ttl) (live_at t (read (seq_key key) d3)) =
          read-pexpire t (seq_key key) (pos ttl) d4 (seq_key key) lasts
          ∙ rw (bytes_eq_refl (seq_key key), seq_kept) refl in
        let past : All (λ s. s ≤ℤ pos a) h =
          All-map _ _ (λ s le. omega (arith, le, tracks.no_later)) h tracks.past in
        rw (after-ok _ (add_units c t key (pos a) r 1 asked) tt done, log_new, seq_new)
          (
            refl,
            admitted-Contents b skew ttl last a t h later (live_at t (read (log_key key) d3))
                (live_at t (read (seq_key key) d3)) (seen.n + r) r near past
                (omega (arith, seen.few)) at.set_kind at.seq_kind at.seq_value
                (rw at.members at.numbered)
                (λ z le. rw at.members (
                  counts z
                  ∙ rw
                      (
                        scored_above-scored_above (pos a -ℤ pos b) z (members_of (live_at t log))
                            le,
                        seen.counts z le,
                      )
                      refl)),
            live_sorted t (with_deadline (t +ℤ pos ttl) (live_at t (read (log_key key) d3))) (
                (with_deadline_kinds (t +ℤ pos ttl) (live_at t (read (log_key key) d3))).0
                ∙ at.set_kind),
          )

    -- The branch of a request that does not fit.
    wait-Tracks :
        (limit' count : ℤ)
        → let run = wait_for_log c t key limit' (pos b) (pos a) (pos r) count asked in
          (wait : ℤ) × (run.0 ≡ ok wait)
          × Tracks a h run.1
          × (is_sorted (live_at t (read (log_key key) run.1)) ≡ true)
    unfolding wait_for_log
    wait-Tracks limit' count =
        let needed = (count +ℤ pos r) -ℤ limit' in
        let place = (if ltb_ℤ needed (pos 1) then pos 1 else needed) -ℤ pos 1 in
        let (found, left, kind) =
          zrange-Tracks place h asked (rw asked_live kept_kinds.1) asked-Tracks in
        rw (after-ok _ (c.zrange t (log_key key) place asked) _ found) (_, refl, left, kind)

    -- Whether the units of the window leave room for the request.
    abbrev pub fits_in : Bool
    fits_in = leb (length (filter_after (pos a -ℤ pos b) h) + r) limit

    -- One run of swlScript.
    pub swl_run-Tracks :
        length h + r ≤ 9223372036854775807
        → let (reply, d') = swl_run c t key (pos limit) (pos b) (pos a) (pos r) (pos ttl) d in
          ((rep : Reply) × (reply ≡ ok rep) × (rep.allowed ≡ flag fits_in))
          × Tracks a (if fits_in then h ++ replicate r (pos a) else h) d'
    unfolding swl_run
    swl_run-Tracks fits =
        let kept = length (filter_after (pos a -ℤ pos b) h) in
        elim (Bool-cases fits_in) [
          | inl room ↦
              let passes : leb_ℤ (pos kept +ℤ pos r) (pos limit) ≡ true =
                ground (arith, plus_pos kept r) in
              let (done, tracks', kind) = admit-Tracks fits in
              let (found, left, still) = zrange-Tracks (negsuc 0) _ _ kind tracks' in
              rw
                (
                  room,
                  after-ok _ (c.zremrangebyscore t (log_key key) (pos a -ℤ pos b) d) _
                      (zremrangebyscore-ok t (log_key key) (pos a -ℤ pos b) d seen.set_kind),
                  after-ok _ (c.zcard t (log_key key) evicted) _ card,
                  passes,
                  after-ok _ (admit c t key (pos a) (pos r) (pos ttl) asked) tt done,
                  after-ok _ (c.zrange t (log_key key) (negsuc 0) _) _ found,
                )
                ((_, refl, refl), left)
          | inr full ↦
              let refuses : leb_ℤ (pos kept +ℤ pos r) (pos limit) ≡ false =
                ground (arith, plus_pos kept r) in
              let (wait, done, tracks', kind) = wait-Tracks (pos limit) (pos kept) in
              let (found, left, still) = zrange-Tracks (negsuc 0) h _ kind tracks' in
              rw
                (
                  full,
                  after-ok _ (c.zremrangebyscore t (log_key key) (pos a -ℤ pos b) d) _
                      (zremrangebyscore-ok t (log_key key) (pos a -ℤ pos b) d seen.set_kind),
                  after-ok _ (c.zcard t (log_key key) evicted) _ card,
                  refuses,
                  after-ok _
                      (wait_for_log c t key (pos limit) (pos b) (pos a) (pos r) (pos kept) asked) _
                      done,
                  after-ok _ (c.zrange t (log_key key) (negsuc 0) _) _ found,
                )
                ((_, refl, refl), left)
        ]
