-- ===== src/Middleware/Stdlib.antt =====
-- middleware/stdlib.go: the middleware for net/http.
use rateshield.Prelude.{[], ◌∷◌, none}
use rateshield.Go.{Context}
use rateshield.Go.Float.{Float64}
use rateshield.Go.Http.{HttpRequest}
use rateshield.Go.Text.{bytes}
use rateshield.Go.Time.{Clock}
use rateshield.Keys.{key_by_ip}
use rateshield.Limiter.{fail_open}
use rateshield.Limiter.Any
use rateshield.Limiter.Any.{Limiter, store_of}
use rateshield.Middleware.{
  Config, Adapter, Handled, http_error, or_default, skips, guarded, set_rate_limit_headers,
  default_error_handler,
}

module _ {F : Type 0} ⦃fl : Float64 F⦄ where
  abbrev pub adapter : Config F → HttpRequest → Adapter F
  adapter cfg r = record {
    failure = http_error (bytes "rate limit store error") 500 ∷ [];
    headers = set_rate_limit_headers;
    refuse = or_default cfg.error_handler (λ r. default_error_handler) r;
  }

  -- Stdlib: what the handler does with a request
  unfoldable pub stdlib :
      (cfg : Config F)
      → Context
      → HttpRequest
      → Clock
      → (store_of cfg.limiter).S
      → Handled F (store_of cfg.limiter).S
  unfolding guarded key_by_ip
  stdlib cfg ctx r =
      guarded (adapter cfg r) (skips cfg.skip r) cfg.fail_strategy (Any.allow cfg.limiter ctx)
        (or_default cfg.key_extractor key_by_ip r)

  -- StdlibSimple
  unfoldable pub stdlib_simple :
      (limiter : Limiter F)
      → Context
      → HttpRequest
      → Clock
      → (store_of limiter).S
      → Handled F (store_of limiter).S
  unfolding stdlib
  stdlib_simple limiter = stdlib (record {
    limiter = limiter;
    key_extractor = none;
    error_handler = none;
    fail_strategy = fail_open;
    skip = none;
  })
