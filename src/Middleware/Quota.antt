-- ===== src/Middleware/Quota.antt =====
-- middleware/stdlib.go over limiters.go and store/memory.go: what a server with a sliding window
-- limiter hands on.
use rateshield.Prelude.{
  ℕ, ◌≤◌, pos, ◌+ℤ◌, ◌≤ℤ◌, ◌≡◌, refl, ap₂, Bool, false, Option, none, List, [], ◌∷◌, map, Bytes,
  All,
}
use rateshield.Go.Float.{Float64}
use rateshield.Go.Http.{HttpRequest}
use rateshield.Go.Time.{Time, Duration}
use rateshield.Keys.{KeyExtractor, key_by_ip}
use rateshield.Limiter.{FailStrategy, Result}
use rateshield.Limiter.Any
use rateshield.Limiter.Any.{sliding_window}
use rateshield.Limiter.SlidingWindow
use rateshield.Limiter.Promise
use rateshield.Limiter.Promise.{in_memory, decided-store}
use rateshield.Memory.{Memory, find}
use rateshield.Memory.Requests.{Request, IsTimeline}
use rateshield.Memory.Window.Order.{IsWindow}
use rateshield.Memory.SlidingLog.{allow_sliding_window_log}
use rateshield.Memory.SlidingLog.Exact.{admitted, sliding_log_never_exceeds}
use rateshield.Middleware.{Config, Effect, or_default}
use rateshield.Middleware.Stdlib.{stdlib}
use rateshield.Middleware.Stdlib
use rateshield.Middleware.Any.{handle}
use rateshield.Middleware.Served.{calls_next}
use rateshield.Middleware.Verdict.{stdlib_serves_what_passes}

-- A request of HTTP, and the instant at which it comes.
pub record Visit : Type 0 where
  pub request : HttpRequest
  pub at : Time

-- What the limiter is asked for.
abbrev pub one_unit : Visit → Request
one_unit v = record { at = v.at; n = 1 }

module _ {F : Type 0} ⦃fl : Float64 F⦄ (limit : ℕ) (window ttl : Duration)
    (extractor : Option KeyExtractor) (handler : Option (HttpRequest → Result → List (Effect F)))
    (strategy : FailStrategy) where
  abbrev pub config : Config F
  config = record {
    limiter = sliding_window (in_memory limit window ttl);
    key_extractor = extractor;
    error_handler = handler;
    fail_strategy = strategy;
    skip = none;
  }

  -- Which visits the server hands on, one after the other.
  unfoldable pub served : Memory F → List Visit → List Bool
  served m [] = []
  served m (v ∷ vs) =
      let (effects, m', clock') = stdlib config none v.request (λ _. v.at) m in
      calls_next effects ∷ served m' vs

  served-decided :
      (c : ℕ) (key : Bytes) (m : Memory F) (vs : List Visit)
      → ((r : HttpRequest) (res : Result)
          → calls_next ((Stdlib.adapter config r).refuse res) ≡ false)
      → All (λ (v : Visit). or_default extractor key_by_ip v.request ≡ c ∷ key) vs
      → served m vs ≡ Promise.decided (c ∷ key) limit window ttl m (map one_unit vs)
  unfolding served Promise.decided handle Any.allow SlidingWindow.allow allow_sliding_window_log
  served-decided c key m [] refuse keys = refl
  served-decided c key m (v ∷ vs) refuse keys =
      let m' =
        (allow_sliding_window_log none (c ∷ key) (pos limit) window (pos 1) ttl (λ _. v.at) m).1 in
      let head =
        (stdlib_serves_what_passes config v.request none (λ _. v.at) m (refuse v.request)).0 in
      rw keys.0 (ap₂ ◌∷◌ (rw keys.0 at head) (served-decided c key m' vs refuse keys.1))

  -- For a sliding window limiter over the memory store, with a positive window and a TTL of at least
  -- the window, behind the middleware for net/http without Skip and with an error handler that does
  -- not hand requests on: of the visits, on one timeline, whose requests have one key that is not
  -- empty and has no entry yet, those that are handed on in any interval of the window's length are at
  -- most the limit, whatever the fail strategy is, as long as no request's context has ended.
  pub server_keeps_limit :
      (c : ℕ) (key : Bytes) (start lo : Time) (m : Memory F) (vs : List Visit)
      → ((r : HttpRequest) (res : Result)
          → calls_next ((Stdlib.adapter config r).refuse res) ≡ false)
      → All (λ (v : Visit). or_default extractor key_by_ip v.request ≡ c ∷ key) vs
      → IsWindow window
      → window ≤ℤ ttl
      → find (c ∷ key) m ≡ none
      → IsTimeline limit start (map one_unit vs)
      → admitted lo (lo +ℤ window) (map one_unit vs) (served m vs) ≤ limit
  server_keeps_limit c key start lo m vs refuse keys w long empty line =
      rw
        (
          served-decided c key m vs refuse keys,
          decided-store c key limit window ttl m (map one_unit vs),
        )
        (sliding_log_never_exceeds (c ∷ key) limit window ttl start lo m (map one_unit vs) w long
          empty line)
