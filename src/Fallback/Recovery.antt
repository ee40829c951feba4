-- ===== src/Fallback/Recovery.antt =====
-- store/fallback.go: how a primary store that answers again closes the breaker.
use rateshield.Prelude.{
  ℕ, zero, suc, pos, leb_ℤ, +ℤ_parts, int_laws, ◌+ℤ◌, ◌≤ℤ◌, ◌≡◌, refl, ap, ◌∙◌, arith, Bool, true,
  if◌then◌else◌, Bool-cases, inl, inr,
}
use rateshield.Go.{ok}
use rateshield.Go.Time.{Clock, now, later, unix_nano}
use rateshield.Store.{Store, Answer, EvalResult}
use rateshield.Circuit
use rateshield.Circuit.{Breaker, open_, closed, half_open}
use rateshield.Circuit.Invariant.{IsValid, allow-IsValid}
use rateshield.Circuit.Cycle.{
  allow_when_closed, allow_when_half_open, allow_when_cooled, success_once,
}
use rateshield.Fallback.{FallbackState, failover}
use rateshield.Fallback.Failover.{
  two_tier, failover-IsValid, primary_success_is_returned, evaluations,
}

module _ {F : Type 0} (p s : Store F) (callback : Bool)
    (call : (s : Store F) → Clock → s.S → Answer s.S)
    (answers : (clock : Clock) (st : p.S)
      → (res : EvalResult) × ((call p clock st).0 ≡ ok res)) where
  -- The breaker after an evaluation that Allow lets through to the primary.
  answering-breaker :
      (clock c : Clock) (st : FallbackState (two_tier p s callback)) (b : Breaker)
      → Circuit.allow clock st.breaker ≡ (true, b, c)
      → (failover (two_tier p s callback) call clock st).1.breaker ≡ Circuit.report_success b
  answering-breaker clock c st b taken =
      let (res, done) = answers c st.primary in
      let a = call p c st.primary in
      let whole : a ≡ (ok res, a.1, a.2) = rw (← done) refl in
      ap (λ (x : Answer (FallbackState (two_tier p s callback))). x.1.breaker)
        (primary_success_is_returned p s callback call clock st taken whole)

  successes_keep_closed :
      (k : ℕ) (clock : Clock) (st : FallbackState (two_tier p s callback))
      → st.breaker.state ≡ closed
      → (evaluations p s callback k call clock st).breaker.state ≡ closed
  unfolding evaluations
  successes_keep_closed zero clock st shut = shut
  successes_keep_closed (suc k) clock st shut =
      let (res, st', clock') = failover (two_tier p s callback) call clock st in
      let after_ =
        answering-breaker clock clock st st.breaker (allow_when_closed clock st.breaker shut) in
      successes_keep_closed k clock' st' (rw after_ (unfold Circuit.report_success in ground arith))

  -- After `k` more evaluations, from an evaluation that reports a success to a half-open breaker.
  closes_after :
      (k : ℕ) (clock c : Clock) (st : FallbackState (two_tier p s callback)) (b : Breaker)
      → Circuit.allow clock st.breaker ≡ (true, b, c)
      → IsValid st.breaker
      → IsValid b
      → b.state ≡ half_open
      → (evaluations p s callback (suc k) call clock st).breaker.state
        ≡ (if leb_ℤ b.success_threshold (b.success_count +ℤ pos (suc k)) then closed else half_open)
  unfolding evaluations
  closes_after zero clock c st b taken v vb half =
      rw (answering-breaker clock c st b taken ∙ success_once b vb half)
        (elim (Bool-cases (leb_ℤ b.success_threshold (b.success_count +ℤ pos 1))) [
          | inl closes ↦ rw closes refl
          | inr counts ↦ rw counts half
        ])
  closes_after (suc k) clock c st b taken v vb half =
      let count = b.success_count in
      let st' = (failover (two_tier p s callback) call clock st).1 in
      let clock' = (failover (two_tier p s callback) call clock st).2 in
      let after_ = answering-breaker clock c st b taken ∙ success_once b vb half in
      let v' = failover-IsValid (two_tier p s callback) call clock st v in
      let sum : count +ℤ pos 1 +ℤ pos (suc k) ≡ count +ℤ pos (suc (suc k)) = omega int_laws in
      elim (Bool-cases (leb_ℤ b.success_threshold (count +ℤ pos 1))) [
        | inl closes ↦
            let shut : st'.breaker.state ≡ closed = rw (after_, closes) refl in
            successes_keep_closed (suc k) clock' st' shut
            ∙ ground (arith, +ℤ_parts count (pos 1), +ℤ_parts count (pos (suc (suc k))))
        | inr counts ↦
            let b' : st'.breaker ≡ record b { success_count = count +ℤ pos 1 } =
              rw counts at after_ in
            let half' : st'.breaker.state ≡ half_open = rw b' half in
            closes_after k clock' (later clock') st' st'.breaker
              (allow_when_half_open clock' st'.breaker half') v' v' half'
            ∙ rw (b', sum) refl
      ]

  -- If every evaluation of the primary succeeds and the cooldown of a valid open breaker has ended,
  -- then after one or more evaluations of the fallback store the breaker is closed if they are at
  -- least as many as its success threshold, and half-open if they are fewer.
  pub recovered_primary_closes_breaker :
      (k : ℕ) (clock : Clock) (st : FallbackState (two_tier p s callback))
      → IsValid st.breaker
      → st.breaker.state ≡ open_
      → st.breaker.open_until ≤ℤ unix_nano (now clock)
      → (evaluations p s callback (suc k) call clock st).breaker.state
        ≡ (if leb_ℤ st.breaker.success_threshold (pos (suc k)) then closed else half_open)
  recovered_primary_closes_breaker k clock st v opened late =
      let taken = allow_when_cooled clock st.breaker opened late in
      let b : Breaker = record st.breaker { success_count = pos 0; state = half_open } in
      let vb : IsValid b =
        rw (ap (λ (x : Bool × Breaker × Clock). x.1) taken) at (allow-IsValid clock st.breaker v) in
      let sum : pos 0 +ℤ pos (suc k) ≡ pos (suc k) = omega int_laws in
      closes_after k clock (later clock) st b taken v vb refl ∙ rw sum refl
