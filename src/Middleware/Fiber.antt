-- ===== src/Middleware/Fiber.antt =====
-- middleware/fiber.go: the middleware for Fiber, and its key extractors.
use rateshield.Prelude.{List, [], ◌∷◌, ◌++◌, none, Bool, Option, Bytes}
use rateshield.Go.{Context}
use rateshield.Go.Float.{Float64, seconds}
use rateshield.Go.Text.{bytes}
use rateshield.Go.Text.Decimal.{format_int}
use rateshield.Go.Time.{Clock, now, later, unix}
use rateshield.Keys.{or_else}
use rateshield.Limiter.{FailStrategy, fail_open, Result}
use rateshield.Limiter.Any
use rateshield.Limiter.Any.{Limiter, store_of}
use rateshield.Middleware.{
  Effect, Adapter, Handled, set_header, send_json, send_string, or_default, skips, guarded,
  reset_delta, whole_seconds,
}

-- What is read of a *fiber.Ctx: c.IP, c.Get, c.Method and c.Path.
pub record FiberContext : Type 0 where
  pub ip : Bytes
  pub get : Bytes → Bytes
  pub method : Bytes
  pub path : Bytes

pub record FiberConfig (F : Type 0) : Type 1 where
  pub limiter : Limiter F
  pub key_extractor : Option (FiberContext → Bytes)
  pub error_handler : Option (FiberContext → Result → List (Effect F))
  pub fail_strategy : FailStrategy
  pub skip : Option (FiberContext → Bool)

-- FiberKeyByIP, also the default
unfoldable pub fiber_key_by_ip : FiberContext → Bytes
fiber_key_by_ip c = c.ip

module _ {F : Type 0} ⦃fl : Float64 F⦄ where
  unfoldable pub default_fiber_error_handler : Result → List (Effect F)
  default_fiber_error_handler res =
      send_json 429 (bytes "rate limit exceeded") (seconds res.retry_after) ∷ []

  -- the calls of c.Set that Fiber writes out
  unfoldable pub fiber_headers : Result → Clock → List (Effect F) × Clock
  fiber_headers res clock =
      let limit_str = format_int res.limit in
      let remaining_str = format_int res.remaining in
      (
        set_header (bytes "X-RateLimit-Limit") limit_str
            ∷ set_header (bytes "X-RateLimit-Remaining") remaining_str
            ∷ set_header (bytes "X-RateLimit-Reset") (format_int (unix res.reset_at))
            ∷ set_header (bytes "RateLimit-Limit") limit_str
            ∷ set_header (bytes "RateLimit-Remaining") remaining_str
            ∷ set_header (bytes "RateLimit-Reset")
                (format_int (reset_delta fl res.reset_at (now clock)))
            ∷ [],
        later clock,
      )

  abbrev pub adapter : FiberConfig F → FiberContext → Adapter F
  adapter cfg c = record {
    failure = send_string 500 (bytes "rate limit store error") ∷ [];
    headers = fiber_headers;
    refuse = λ res.
        set_header (bytes "Retry-After") (format_int (whole_seconds fl res.retry_after))
        ∷ or_default cfg.error_handler (λ c. default_fiber_error_handler) c res;
  }

  -- Fiber: what the handler does with a context
  unfoldable pub fiber :
      (cfg : FiberConfig F)
      → Context
      → FiberContext
      → Clock
      → (store_of cfg.limiter).S
      → Handled F (store_of cfg.limiter).S
  unfolding guarded fiber_key_by_ip
  fiber cfg ctx c =
      guarded (adapter cfg c) (skips cfg.skip c) cfg.fail_strategy (Any.allow cfg.limiter ctx)
        (or_default cfg.key_extractor fiber_key_by_ip c)

  -- FiberSimple
  unfoldable pub fiber_simple :
      (limiter : Limiter F)
      → Context
      → FiberContext
      → Clock
      → (store_of limiter).S
      → Handled F (store_of limiter).S
  unfolding fiber
  fiber_simple limiter = fiber (record {
    limiter = limiter;
    key_extractor = none;
    error_handler = none;
    fail_strategy = fail_open;
    skip = none;
  })

unfoldable pub fiber_key_by_header : Bytes → FiberContext → Bytes
fiber_key_by_header header c = c.get header

unfoldable pub fiber_key_by_route : FiberContext → Bytes
fiber_key_by_route c = c.method ++ b':' ∷ c.path

unfoldable pub fiber_key_by_ip_and_route : FiberContext → Bytes
fiber_key_by_ip_and_route c = c.ip ++ b':' ∷ c.method ++ b':' ∷ c.path

unfoldable pub fiber_key_by_user_id : Bytes → FiberContext → Bytes
fiber_key_by_user_id header c = or_else (c.get header) c.ip (λ user_id. bytes "user:" ++ user_id)
