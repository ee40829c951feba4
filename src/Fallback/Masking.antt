-- ===== src/Fallback/Masking.antt =====
-- store/fallback.go: the errors that the callers of a fallback store over the memory store see.
use rateshield.Prelude.{ℤ, ◌≡◌, refl, Bool, Bytes, Option, none, some, List, [], ◌∷◌, All}
use rateshield.Go.{Context, Outcome, ok, err}
use rateshield.Go.Time.{Duration, Clock}
use rateshield.Go.Float.{Float64}
use rateshield.Store.{Store, Answer, EvalResult}
use rateshield.Memory.{Memory}
use rateshield.Memory.Backend.{memory_store}
use rateshield.Memory.Window.{evaluate}
use rateshield.Memory.TokenBucket.{allow_token_bucket}
use rateshield.Memory.FixedWindow.{allow_fixed_window}
use rateshield.Memory.SlidingCounter.{allow_sliding_window_counter}
use rateshield.Memory.SlidingLog.{allow_sliding_window_log}
use rateshield.Fallback
use rateshield.Fallback.{
  FallbackStore, FallbackState, PrimaryState, Tried, finish, failover, fallback_store,
}

-- A call of one of the four evaluations.
pub data Evaluation (F : Type 0) : Type 0 where
  token_bucket : Context → Bytes → (rate : F) → (capacity n : ℤ) → (ttl : Duration) → Evaluation F
  fixed_window :
      Context
      → Bytes
      → (limit : ℤ) → (window : Duration) → (n : ℤ) → (ttl : Duration) → Evaluation F
  sliding_window_counter :
      Context
      → Bytes
      → (limit : ℤ) → (window : Duration) → (n : ℤ) → (ttl : Duration) → Evaluation F
  sliding_window_log :
      Context
      → Bytes
      → (limit : ℤ) → (window : Duration) → (n : ℤ) → (ttl : Duration) → Evaluation F

module _ {F : Type 0} where
  abbrev pub context_of : Evaluation F → Context
  context_of (token_bucket ctx key rate capacity n ttl) = ctx
  context_of (fixed_window ctx key limit window n ttl) = ctx
  context_of (sliding_window_counter ctx key limit window n ttl) = ctx
  context_of (sliding_window_log ctx key limit window n ttl) = ctx

  abbrev pub ask : Evaluation F → (s : Store F) → Clock → s.S → Answer s.S
  ask (token_bucket ctx key rate capacity n ttl) s =
      s.allow_token_bucket ctx key rate capacity n ttl
  ask (fixed_window ctx key limit window n ttl) s = s.allow_fixed_window ctx key limit window n ttl
  ask (sliding_window_counter ctx key limit window n ttl) s =
      s.allow_sliding_window_counter ctx key limit window n ttl
  ask (sliding_window_log ctx key limit window n ttl) s =
      s.allow_sliding_window_log ctx key limit window n ttl

  -- What the callers get of a store, one after the other, with the context of each call.
  unfoldable pub answers :
      (s : Store F) → List (Evaluation F) → Clock → s.S → List (Context × Outcome EvalResult)
  answers s [] clock st = []
  answers s (e ∷ es) clock st =
      let (res, st', clock') = ask e s clock st in (context_of e, res) ∷ answers s es clock' st'

-- A result, or the error of the caller's own context.
abbrev pub IsExcused : Context → Outcome EvalResult → Type 0
IsExcused ctx (ok res) = Unit {0}
IsExcused ctx (err e) = ctx ≡ some e

finish-IsExcused :
    {F : Type 0} (fs : FallbackStore F) (call : (s : Store F) → Clock → s.S → Answer s.S)
    (ctx : Context) (st : FallbackState fs) (t : Tried (PrimaryState fs.primary))
    → ((clock : Clock) (s : fs.secondary.S) → IsExcused ctx (call fs.secondary clock s).0)
    → IsExcused ctx (finish fs (call fs.secondary) st t).0
unfolding finish
finish-IsExcused fs call ctx st (some res, p, b, reported, clock) h = tt
finish-IsExcused fs call ctx st (none, p, b, reported, clock) h = h clock st.secondary

module _ {F : Type 0} ⦃fl : Float64 F⦄ where
  memory-IsExcused :
      (e : Evaluation F) (clock : Clock) (m : Memory F)
      → IsExcused (context_of e) (ask e (memory_store fl) clock m).0
  unfolding allow_token_bucket allow_fixed_window allow_sliding_window_counter
      allow_sliding_window_log evaluate
  memory-IsExcused (token_bucket none key rate capacity n ttl) clock m = tt
  memory-IsExcused (token_bucket (some e) key rate capacity n ttl) clock m = refl
  memory-IsExcused (fixed_window none key limit window n ttl) clock m = tt
  memory-IsExcused (fixed_window (some e) key limit window n ttl) clock m = refl
  memory-IsExcused (sliding_window_counter none key limit window n ttl) clock m = tt
  memory-IsExcused (sliding_window_counter (some e) key limit window n ttl) clock m = refl
  memory-IsExcused (sliding_window_log none key limit window n ttl) clock m = tt
  memory-IsExcused (sliding_window_log (some e) key limit window n ttl) clock m = refl

  -- Over the memory store, which NewFallback takes where no secondary is configured.
  abbrev pub over_memory : Option (Store F) → Bool → FallbackStore F
  over_memory p callback = record {
    primary = p;
    secondary = memory_store fl;
    on_primary_error = callback;
  }

  ask-IsExcused :
      (p : Option (Store F)) (callback : Bool) (e : Evaluation F) (clock : Clock)
      (st : FallbackState (over_memory p callback))
      → IsExcused (context_of e) (ask e (fallback_store (over_memory p callback)) clock st).0
  unfolding Fallback.allow_token_bucket Fallback.allow_fixed_window
      Fallback.allow_sliding_window_counter Fallback.allow_sliding_window_log failover
  ask-IsExcused p callback (token_bucket ctx key rate capacity n ttl) clock st =
      let e = token_bucket ctx key rate capacity n ttl in
      finish-IsExcused (over_memory p callback) (ask e) ctx st _ (memory-IsExcused e)
  ask-IsExcused p callback (fixed_window ctx key limit window n ttl) clock st =
      let e = fixed_window ctx key limit window n ttl in
      finish-IsExcused (over_memory p callback) (ask e) ctx st _ (memory-IsExcused e)
  ask-IsExcused p callback (sliding_window_counter ctx key limit window n ttl) clock st =
      let e = sliding_window_counter ctx key limit window n ttl in
      finish-IsExcused (over_memory p callback) (ask e) ctx st _ (memory-IsExcused e)
  ask-IsExcused p callback (sliding_window_log ctx key limit window n ttl) clock st =
      let e = sliding_window_log ctx key limit window n ttl in
      finish-IsExcused (over_memory p callback) (ask e) ctx st _ (memory-IsExcused e)

  -- Of a fallback store over the memory store, with any primary store or none, every call of a
  -- sequence of evaluations gets a result or the error of its own context, whatever the primary
  -- answers, the breaker holds and the clock reads.
  pub primary_errors_stay_hidden :
      (p : Option (Store F)) (callback : Bool) (es : List (Evaluation F)) (clock : Clock)
      (st : FallbackState (over_memory p callback))
      → All
          (λ (a : Context × Outcome EvalResult). IsExcused a.0 a.1)
          (answers (fallback_store (over_memory p callback)) es clock st)
  unfolding answers
  primary_errors_stay_hidden p callback [] clock st = tt
  primary_errors_stay_hidden p callback (e ∷ es) clock st =
      let (res, st', clock') = ask e (fallback_store (over_memory p callback)) clock st in
      (ask-IsExcused p callback e clock st, primary_errors_stay_hidden p callback es clock' st')
