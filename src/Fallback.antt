-- ===== src/Fallback.antt =====
-- store/fallback.go: a store over a primary and a secondary store, with a circuit breaker in front of
-- the primary. The errors that `onPrimaryError` is called with are a list, the latest first; without
-- the callback it stays empty.
use rateshield.Prelude.{
  ℤ, Bool, true, false, Bytes, Option, none, some, List, [], ◌∷◌, if◌then◌else◌,
}
use rateshield.Go.{Error, Outcome, ok, err, Context}
use rateshield.Go.Time.{Duration, Clock}
use rateshield.Go.Float.{Float64}
use rateshield.Store.{Store, Answer, EvalResult}
use rateshield.Circuit
use rateshield.Circuit.{Breaker}
use rateshield.Memory.Backend.{memory_store}
pub mod Failover
pub mod Recovery
pub mod Masking
pub mod Resetting

pub record FallbackConfig (F : Type 0) : Type 1 where
  pub primary : Option (Store F)
  pub secondary : Option (Store F)
  pub on_primary_error : Bool
  pub failure_threshold : ℤ
  pub success_threshold : ℤ
  pub cooldown : Duration

-- The fields that stay as they are.
pub record FallbackStore (F : Type 0) : Type 1 where
  pub primary : Option (Store F)
  pub secondary : Store F
  pub on_primary_error : Bool

-- The state of a primary store, if there is one.
abbrev pub PrimaryState : {F : Type 0} → Option (Store F) → Type 0
PrimaryState none = Unit {0}
PrimaryState (some p) = p.S

pub record FallbackState {F : Type 0} (fs : FallbackStore F) : Type 0 where
  pub primary : PrimaryState fs.primary
  pub secondary : fs.secondary.S
  pub breaker : Breaker
  pub reported : List Error

abbrev secondary_or_memory : {F : Type 0} → Float64 F → Option (Store F) → Store F
secondary_or_memory fl none = memory_store fl
secondary_or_memory fl (some s) = s

module _ {F : Type 0} ⦃fl : Float64 F⦄ where
  -- NewFallback: the store and its breaker
  unfoldable pub new : FallbackConfig F → FallbackStore F × Breaker
  new cfg = (
    record {
      primary = cfg.primary;
      secondary = secondary_or_memory fl cfg.secondary;
      on_primary_error = cfg.on_primary_error;
    },
    Circuit.new (record {
      failure_threshold = cfg.failure_threshold;
      success_threshold = cfg.success_threshold;
      cooldown = cfg.cooldown;
    }),
  )

-- handlePrimaryError, for an error that is not nil
abbrev pub handle_primary_error : Bool → Error → List Error → List Error
handle_primary_error has_callback e reported = if has_callback then e ∷ reported else reported

-- What is left of a call once the primary has been tried: its result, if it gave one, the primary's
-- state, the breaker, the errors reported and the clock.
abbrev pub Tried : Type 0 → Type 0
Tried P = Option EvalResult × P × Breaker × List Error × Clock

after_primary : {P : Type 0} → Bool → Breaker → List Error → Answer P → Tried P
after_primary callback b reported (ok res, p, clock) =
    (some res, p, Circuit.report_success b, reported, clock)
after_primary callback b reported (err e, p, clock) =
    let (b', clock') = Circuit.report_failure clock b in
    (none, p, b', handle_primary_error callback e reported, clock')

-- `if fs.primary != nil && fs.breaker.Allow() { ... }`
try_primary :
    {F : Type 0} (p : Option (Store F))
    → ((s : Store F) → Clock → s.S → Answer s.S)
    → Bool
    → Clock
    → PrimaryState p
    → Breaker
    → List Error
    → Tried (PrimaryState p)
unfolding after_primary
try_primary none call callback clock st b reported = (none, st, b, reported, clock)
try_primary (some s) call callback clock st b reported =
    let (taken, b', clock') = Circuit.allow clock b in
    if taken
    then after_primary callback b' reported (call s clock' st)
    else (none, st, b', reported, clock')

module _ {F : Type 0} (fs : FallbackStore F) where
  finish :
      (Clock → fs.secondary.S → Answer fs.secondary.S)
      → FallbackState fs
      → Tried (PrimaryState fs.primary)
      → Answer (FallbackState fs)
  finish call st (some res, p, b, reported, clock) =
      (ok res, record st { primary = p; breaker = b; reported = reported }, clock)
  finish call st (none, p, b, reported, clock) =
      let (res, s, clock') = call clock st.secondary in
      (res, record { primary = p; secondary = s; breaker = b; reported = reported }, clock')

  -- The body that the four evaluations share, but for the method that they call on both stores.
  unfoldable pub failover :
      ((s : Store F) → Clock → s.S → Answer s.S)
      → Clock
      → FallbackState fs
      → Answer (FallbackState fs)
  unfolding try_primary finish
  failover call clock st =
      finish (call fs.secondary) st
        (try_primary fs.primary call fs.on_primary_error clock st.primary st.breaker st.reported)

  unfoldable pub allow_token_bucket :
      Context
      → Bytes
      → F
      → (capacity n : ℤ) → Duration
      → Clock
      → FallbackState fs
      → Answer (FallbackState fs)
  unfolding failover
  allow_token_bucket ctx key rate capacity n ttl =
      failover (λ s. s.allow_token_bucket ctx key rate capacity n ttl)

  unfoldable pub allow_fixed_window :
      Context
      → Bytes
      → ℤ
      → Duration
      → ℤ
      → Duration
      → Clock
      → FallbackState fs
      → Answer (FallbackState fs)
  unfolding failover
  allow_fixed_window ctx key limit window n ttl =
      failover (λ s. s.allow_fixed_window ctx key limit window n ttl)

  unfoldable pub allow_sliding_window_counter :
      Context
      → Bytes
      → ℤ
      → Duration
      → ℤ
      → Duration
      → Clock
      → FallbackState fs
      → Answer (FallbackState fs)
  unfolding failover
  allow_sliding_window_counter ctx key limit window n ttl =
      failover (λ s. s.allow_sliding_window_counter ctx key limit window n ttl)

  unfoldable pub allow_sliding_window_log :
      Context
      → Bytes
      → ℤ
      → Duration
      → ℤ
      → Duration
      → Clock
      → FallbackState fs
      → Answer (FallbackState fs)
  unfolding failover
  allow_sliding_window_log ctx key limit window n ttl =
      failover (λ s. s.allow_sliding_window_log ctx key limit window n ttl)

-- the first error of two, as Reset and Close return it
abbrev pub first_error : Option Error → Option Error → Option Error
first_error (some e) second = some e
first_error none second = second

reset_primary :
    {F : Type 0} (p : Option (Store F))
    → Context
    → Bytes
    → PrimaryState p
    → Option Error × PrimaryState p
reset_primary none ctx key st = (none, st)
reset_primary (some s) ctx key st = s.reset ctx key st

close_primary : {F : Type 0} (p : Option (Store F)) → PrimaryState p → Option Error × PrimaryState p
close_primary none st = (none, st)
close_primary (some s) st = s.close st

-- the error of the primary goes to the callback
abbrev report : Bool → Option Error → List Error → List Error
report callback none reported = reported
report callback (some e) reported = handle_primary_error callback e reported

module _ {F : Type 0} (fs : FallbackStore F) where
  -- Reset
  unfoldable pub reset : Context → Bytes → FallbackState fs → Option Error × FallbackState fs
  unfolding reset_primary
  reset ctx key st =
      let (e, p) = reset_primary fs.primary ctx key st.primary in
      let (e', s) = fs.secondary.reset ctx key st.secondary in
      (
        first_error e e',
        record st {
          primary = p;
          secondary = s;
          reported = report fs.on_primary_error e st.reported;
        },
      )

  -- Close
  unfoldable pub close : FallbackState fs → Option Error × FallbackState fs
  unfolding close_primary
  close st =
      let (e, p) = close_primary fs.primary st.primary in
      let (e', s) = fs.secondary.close st.secondary in
      (first_error e e', record st { primary = p; secondary = s })

  -- A fallback store is a store.
  abbrev pub fallback_store : Store F
  fallback_store = record {
    S = FallbackState fs;
    reset = reset;
    allow_token_bucket = allow_token_bucket fs;
    allow_fixed_window = allow_fixed_window fs;
    allow_sliding_window_counter = allow_sliding_window_counter fs;
    allow_sliding_window_log = allow_sliding_window_log fs;
    close = close;
  }
