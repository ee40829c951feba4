-- ===== src/Middleware/Gin.antt =====
-- middleware/gin.go: the middleware for Gin. Of a gin.Context the handler reads the request.
use rateshield.Prelude.{List, [], ◌∷◌, ◌++◌, none, Bool, Option}
use rateshield.Go.{Context}
use rateshield.Go.Float.{Float64, seconds}
use rateshield.Go.Http.{HttpRequest}
use rateshield.Go.Text.{bytes}
use rateshield.Go.Time.{Clock}
use rateshield.Keys.{KeyExtractor, key_by_ip}
use rateshield.Limiter.{FailStrategy, fail_open, Result}
use rateshield.Limiter.Any
use rateshield.Limiter.Any.{Limiter, store_of}
use rateshield.Middleware.{
  Effect, Adapter, Handled, abort, abort_with_json, send_json, or_default, skips, guarded,
  set_rate_limit_headers,
}

pub record GinConfig (F : Type 0) : Type 1 where
  pub limiter : Limiter F
  pub key_extractor : Option KeyExtractor
  pub error_handler : Option (HttpRequest → Result → List (Effect F))
  pub fail_strategy : FailStrategy
  pub skip : Option (HttpRequest → Bool)

module _ {F : Type 0} ⦃fl : Float64 F⦄ where
  unfoldable pub default_gin_error_handler : Result → List (Effect F)
  default_gin_error_handler res =
      send_json 429 (bytes "rate limit exceeded") (seconds res.retry_after) ∷ []

  abbrev pub adapter : GinConfig F → HttpRequest → Adapter F
  adapter cfg c = record {
    failure = abort_with_json 500 (bytes "rate limit store error") ∷ [];
    headers = set_rate_limit_headers;
    refuse =
        λ res. or_default cfg.error_handler (λ c. default_gin_error_handler) c res ++ (abort ∷ []);
  }

  -- Gin: what the handler does with a context
  unfoldable pub gin :
      (cfg : GinConfig F)
      → Context
      → HttpRequest
      → Clock
      → (store_of cfg.limiter).S
      → Handled F (store_of cfg.limiter).S
  unfolding guarded key_by_ip
  gin cfg ctx c =
      guarded (adapter cfg c) (skips cfg.skip c) cfg.fail_strategy (Any.allow cfg.limiter ctx)
        (or_default cfg.key_extractor key_by_ip c)

  -- GinSimple
  unfoldable pub gin_simple :
      (limiter : Limiter F)
      → Context
      → HttpRequest
      → Clock
      → (store_of limiter).S
      → Handled F (store_of limiter).S
  unfolding gin
  gin_simple limiter = gin (record {
    limiter = limiter;
    key_extractor = none;
    error_handler = none;
    fail_strategy = fail_open;
    skip = none;
  })
