-- ===== src/Middleware/Echo.antt =====
-- middleware/echo.go: the middleware for Echo, and its key extractors.
use rateshield.Prelude.{List, [], ◌∷◌, ◌++◌, none, some, Bool, Option, Bytes}
use rateshield.Go.{Context}
use rateshield.Go.Float.{Float64, seconds}
use rateshield.Go.Http.{HttpRequest}
use rateshield.Go.Text.{bytes}
use rateshield.Go.Time.{Clock}
use rateshield.Keys.{or_else}
use rateshield.Limiter.{FailStrategy, fail_open, Result}
use rateshield.Limiter.Any
use rateshield.Limiter.Any.{Limiter, store_of}
use rateshield.Middleware.{
  Effect, Adapter, Handled, send_json, send_string, or_default, skips, guarded,
  set_rate_limit_headers,
}

-- What is read of an echo.Context.
pub record EchoContext : Type 0 where
  pub request : HttpRequest
  pub real_ip : Bytes
  pub path : Bytes
  pub param : Bytes → Bytes

pub record EchoConfig (F : Type 0) : Type 1 where
  pub limiter : Limiter F
  pub key_extractor : Option (EchoContext → Bytes)
  pub error_handler : Option (EchoContext → Result → List (Effect F))
  pub fail_strategy : FailStrategy
  pub skip : Option (EchoContext → Bool)
  pub skipper : Option (EchoContext → Bool)

-- `skipper := cfg.Skip; if skipper == nil { skipper = cfg.Skipper }`
abbrev pub skip_or : {A : Type 0} → Option A → Option A → Option A
skip_or none skipper = skipper
skip_or (some skip) skipper = some skip

-- EchoKeyByIP, also the default
unfoldable pub echo_key_by_ip : EchoContext → Bytes
echo_key_by_ip c = c.real_ip

module _ {F : Type 0} ⦃fl : Float64 F⦄ where
  unfoldable pub default_echo_error_handler : Result → List (Effect F)
  default_echo_error_handler res =
      send_json 429 (bytes "rate limit exceeded") (seconds res.retry_after) ∷ []

  abbrev pub adapter : EchoConfig F → EchoContext → Adapter F
  adapter cfg c = record {
    failure = send_string 500 (bytes "rate limit store error") ∷ [];
    headers = set_rate_limit_headers;
    refuse = or_default cfg.error_handler (λ c. default_echo_error_handler) c;
  }

  -- Echo: what the handler does with a context
  unfoldable pub echo :
      (cfg : EchoConfig F)
      → Context
      → EchoContext
      → Clock
      → (store_of cfg.limiter).S
      → Handled F (store_of cfg.limiter).S
  unfolding guarded echo_key_by_ip
  echo cfg ctx c =
      guarded (adapter cfg c) (skips (skip_or cfg.skip cfg.skipper) c) cfg.fail_strategy
        (Any.allow cfg.limiter ctx) (or_default cfg.key_extractor echo_key_by_ip c)

  -- EchoSimple
  unfoldable pub echo_simple :
      (limiter : Limiter F)
      → Context
      → EchoContext
      → Clock
      → (store_of limiter).S
      → Handled F (store_of limiter).S
  unfolding echo
  echo_simple limiter = echo (record {
    limiter = limiter;
    key_extractor = none;
    error_handler = none;
    fail_strategy = fail_open;
    skip = none;
    skipper = none;
  })

unfoldable pub echo_key_by_header : Bytes → EchoContext → Bytes
echo_key_by_header header c = c.request.header header

unfoldable pub echo_key_by_path : EchoContext → Bytes
echo_key_by_path c = c.request.method ++ b':' ∷ c.path

unfoldable pub echo_key_by_ip_and_path : EchoContext → Bytes
echo_key_by_ip_and_path c = c.real_ip ++ b':' ∷ c.request.method ++ b':' ∷ c.path

unfoldable pub echo_key_by_user_id : Bytes → EchoContext → Bytes
echo_key_by_user_id header c =
    or_else (c.request.header header) c.real_ip (λ user_id. bytes "user:" ++ user_id)

unfoldable pub echo_key_by_param : Bytes → EchoContext → Bytes
echo_key_by_param param c = c.param param
