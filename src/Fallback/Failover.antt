-- ===== src/Fallback/Failover.antt =====
-- store/fallback.go: what a call of a fallback store does to the two stores and to the breaker, for
-- any stores behind it.
use rateshield.Prelude.{
  ℕ, zero, suc, pos, leb_ℤ, +ℤ_parts, int_laws, ◌+ℤ◌, ◌≤ℤ◌, ◌<ℤ◌, ◌≡◌, refl, ap, ◌∙◌, arith, Bool,
  true, Option, none, some, List, if◌then◌else◌, Bool-cases, inl, inr,
}
use rateshield.Go.{Error, ok, err}
use rateshield.Go.Time.{Clock, now, later, unix_nano}
use rateshield.Store.{Store, Answer, EvalResult}
use rateshield.Circuit
use rateshield.Circuit.{Breaker, open_, closed, half_open}
use rateshield.Circuit.Invariant.{
  IsValid, allow-IsValid, report_success-IsValid, report_failure-IsValid,
}
use rateshield.Circuit.Cycle.{allow_when_closed, allow_when_cooling, failure_once}
use rateshield.Fallback.{
  FallbackStore, FallbackState, PrimaryState, Tried, after_primary, try_primary, finish, failover,
  handle_primary_error,
}

after_primary-IsValid :
    {P : Type 0} (callback : Bool) (b : Breaker) (reported : List Error) (a : Answer P)
    → IsValid b
    → IsValid (after_primary callback b reported a).2
unfolding after_primary
after_primary-IsValid callback b reported (ok res, p, clock) v = report_success-IsValid b v
after_primary-IsValid callback b reported (err e, p, clock) v = report_failure-IsValid clock b v

try_primary-IsValid :
    {F : Type 0} (p : Option (Store F)) (call : (s : Store F) → Clock → s.S → Answer s.S)
    (callback : Bool) (clock : Clock) (st : PrimaryState p) (b : Breaker) (reported : List Error)
    → IsValid b
    → IsValid (try_primary p call callback clock st b reported).2
unfolding try_primary
try_primary-IsValid none call callback clock st b reported v = v
try_primary-IsValid (some s) call callback clock st b reported v =
    let (taken, b', clock') = Circuit.allow clock b in
    elim (Bool-cases taken) [
      | inl yes_ ↦
          rw yes_ (
            after_primary-IsValid callback b' reported (call s clock' st) (allow-IsValid clock b v))
      | inr no_ ↦ rw no_ (allow-IsValid clock b v)
    ]

finish-breaker :
    {F : Type 0} (fs : FallbackStore F) (call : Clock → fs.secondary.S → Answer fs.secondary.S)
    (st : FallbackState fs) (t : Tried (PrimaryState fs.primary))
    → (finish fs call st t).1.breaker ≡ t.2
unfolding finish
finish-breaker fs call st (some res, p, b, reported, clock) = refl
finish-breaker fs call st (none, p, b, reported, clock) = refl

-- Every evaluation of a fallback store keeps its breaker valid, whatever the two stores do.
pub failover-IsValid :
    {F : Type 0} (fs : FallbackStore F) (call : (s : Store F) → Clock → s.S → Answer s.S)
    (clock : Clock) (st : FallbackState fs)
    → IsValid st.breaker
    → IsValid (failover fs call clock st).1.breaker
unfolding failover
failover-IsValid fs call clock st v =
    let tried =
      try_primary fs.primary call fs.on_primary_error clock st.primary st.breaker st.reported in
    rw (finish-breaker fs (call fs.secondary) st tried) (
      try_primary-IsValid fs.primary call fs.on_primary_error clock st.primary st.breaker
        st.reported v)

Answer-eta : {S : Type 0} (a : Answer S) (e : Error) → a.0 ≡ err e → a ≡ (err e, a.1, a.2)
Answer-eta a e h = rw (← h)

module _ {F : Type 0} (p s : Store F) (callback : Bool) where
  -- The store with a primary.
  abbrev pub two_tier : FallbackStore F
  two_tier = record { primary = some p; secondary = s; on_primary_error = callback }

  -- While the breaker is open and the clock has not reached the end of its cooldown, an evaluation
  -- gives the secondary's answer, and leaves the primary, the breaker and the reports as they are.
  pub open_breaker_spares_primary :
      (call : (s : Store F) → Clock → s.S → Answer s.S) (clock : Clock)
      (st : FallbackState two_tier)
      → st.breaker.state ≡ open_
      → unix_nano (now clock) <ℤ st.breaker.open_until
      → let (res, second, clock') = call s (later clock) st.secondary in
        failover two_tier call clock st ≡ (res, record st { secondary = second }, clock')
  unfolding failover
  open_breaker_spares_primary call clock st opened early =
      rw (allow_when_cooling clock st.breaker opened early, finish) refl

  -- If the breaker lets an evaluation through and the primary succeeds, the caller gets the
  -- primary's result, the success is reported to the breaker, and the secondary is not touched.
  pub primary_success_is_returned :
      (call : (s : Store F) → Clock → s.S → Answer s.S) (clock : Clock)
      (st : FallbackState two_tier) {b : Breaker} {c c' : Clock} {res : EvalResult} {p' : p.S}
      → Circuit.allow clock st.breaker ≡ (true, b, c)
      → call p c st.primary ≡ (ok res, p', c')
      → failover two_tier call clock st
        ≡ (ok res, record st { primary = p'; breaker = Circuit.report_success b }, c')
  unfolding failover
  primary_success_is_returned call clock st taken done = rw (taken, done, finish) refl

  -- If the breaker lets an evaluation through and the primary fails, the caller gets the answer of
  -- the secondary and never the primary's error, which goes to the breaker and to the callback.
  pub primary_error_is_masked :
      (call : (s : Store F) → Clock → s.S → Answer s.S) (clock : Clock)
      (st : FallbackState two_tier) {b : Breaker} {c c' : Clock} {e : Error} {p' : p.S}
      → Circuit.allow clock st.breaker ≡ (true, b, c)
      → call p c st.primary ≡ (err e, p', c')
      → let (b', c'') = Circuit.report_failure c' b in
        let (res, second, c‴) = call s c'' st.secondary in
        failover two_tier call clock st ≡ (
          res,
          record {
            primary = p';
            secondary = second;
            breaker = b';
            reported = handle_primary_error callback e st.reported;
          },
          c‴,
        )
  unfolding failover
  primary_error_is_masked call clock st taken failed = rw (taken, failed, finish) refl

  -- The breaker after an evaluation whose primary fails, in the closed state.
  failing-breaker :
      (call : (s : Store F) → Clock → s.S → Answer s.S)
      → ((clock : Clock) (st : p.S) → (e : Error) × ((call p clock st).0 ≡ err e))
      → (clock : Clock) (st : FallbackState two_tier) → st.breaker.state ≡ closed
      → (c : Clock) × ((failover two_tier call clock st).1.breaker
          ≡ (Circuit.report_failure c st.breaker).0)
  failing-breaker call fails clock st shut =
      let (e, failed) = fails clock st.primary in
      let a = call p clock st.primary in
      (
        a.2,
        ap (λ (x : Answer (FallbackState two_tier)). x.1.breaker)
            (primary_error_is_masked call clock st (allow_when_closed clock st.breaker shut)
              (Answer-eta a e failed)),
      )

  -- `k` evaluations one after the other; the answers go to the callers.
  unfoldable pub evaluations :
      ℕ
      → ((s : Store F) → Clock → s.S → Answer s.S)
      → Clock
      → FallbackState two_tier
      → FallbackState two_tier
  evaluations zero call clock st = st
  evaluations (suc k) call clock st =
      let (res, st', clock') = failover two_tier call clock st in evaluations k call clock' st'

  -- If every evaluation of the primary fails, a valid closed breaker is, after `k` evaluations of
  -- the fallback store, still closed if the failures counted are below its threshold, and open if
  -- they have just reached it.
  pub failing_primary_trips_breaker :
      (k : ℕ) (call : (s : Store F) → Clock → s.S → Answer s.S)
      → ((clock : Clock) (st : p.S) → (e : Error) × ((call p clock st).0 ≡ err e))
      → (clock : Clock) (st : FallbackState two_tier) → IsValid st.breaker
      → st.breaker.state ≡ closed
      → st.breaker.failure_count +ℤ pos k ≤ℤ st.breaker.failure_threshold
      → (evaluations k call clock st).breaker.state ≡ (
          if leb_ℤ st.breaker.failure_threshold (st.breaker.failure_count +ℤ pos k)
          then open_
          else closed)
  unfolding evaluations
  failing_primary_trips_breaker zero call fails clock st v shut le =
      ground (arith, +ℤ_parts st.breaker.failure_count (pos 0), v.failures_below)
  failing_primary_trips_breaker (suc k) call fails clock st v shut le =
      let b = st.breaker in
      let count = b.failure_count in
      let st' = (failover two_tier call clock st).1 in
      let clock' = (failover two_tier call clock st).2 in
      let (c, reported) = failing-breaker call fails clock st shut in
      let after_ : st'.breaker
          ≡ (if leb_ℤ b.failure_threshold (count +ℤ pos 1)
              then Circuit.trip c (record b { failure_count = count +ℤ pos 1 })
              else (record b { failure_count = count +ℤ pos 1 }, c)).0 =
        reported ∙ ap (λ (x : Breaker × Clock). x.0) (failure_once c b v shut) in
      elim (Bool-cases (leb_ℤ b.failure_threshold (count +ℤ pos 1))) [
        | inl trips ↦
            let last : k ≡ 0 =
              ground (arith, +ℤ_parts count (pos 1), +ℤ_parts count (pos (suc k))) in
            rw (last, evaluations, after_, trips) (unfold Circuit.trip in refl)
        | inr counts ↦
            let b' : st'.breaker ≡ record b { failure_count = count +ℤ pos 1 } =
              rw counts at after_ in
            let sum : count +ℤ pos 1 +ℤ pos k ≡ count +ℤ pos (suc k) = omega int_laws in
            failing_primary_trips_breaker k call fails clock' st'
              (failover-IsValid two_tier call clock st v) (rw b' shut) (rw (b', sum) le)
            ∙ rw (b', sum)
      ]
