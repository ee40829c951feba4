-- ===== src/Middleware/Chi.antt =====
-- middleware/chi.go: the middleware for Chi, its options and its key extractor.
use rateshield.Prelude.{List, [], ◌∷◌, none, some, Bool, Option, Bytes}
use rateshield.Go.{Context}
use rateshield.Go.Float.{Float64}
use rateshield.Go.Http.{HttpRequest}
use rateshield.Go.Text.{bytes}
use rateshield.Go.Time.{Clock}
use rateshield.Keys.{KeyExtractor, key_by_ip, or_else}
use rateshield.Limiter.{FailStrategy, fail_open, Result}
use rateshield.Limiter.Any
use rateshield.Limiter.Any.{Limiter, store_of}
use rateshield.Middleware.{
  Effect, Adapter, Handled, http_error, set_header, write_header, write_body, or_default, skips,
  guarded, set_rate_limit_headers, refusal_body,
}

pub record ChiConfig (F : Type 0) : Type 1 where
  pub limiter : Limiter F
  pub key_extractor : Option KeyExtractor
  pub error_handler : Option (HttpRequest → Result → List (Effect F))
  pub fail_strategy : FailStrategy
  pub skip : Option (HttpRequest → Bool)

module _ {F : Type 0} ⦃fl : Float64 F⦄ where
  unfoldable pub default_chi_error_handler : Result → List (Effect F)
  default_chi_error_handler res =
      set_header (bytes "Content-Type") (bytes "application/json")
      ∷ write_header 429
      ∷ write_body (refusal_body fl res)
      ∷ []

  abbrev pub adapter : ChiConfig F → HttpRequest → Adapter F
  adapter cfg r = record {
    failure = http_error (bytes "rate limit store error") 500 ∷ [];
    headers = set_rate_limit_headers;
    refuse = or_default cfg.error_handler (λ r. default_chi_error_handler) r;
  }

  -- Chi: what the handler does with a request
  unfoldable pub chi :
      (cfg : ChiConfig F)
      → Context
      → HttpRequest
      → Clock
      → (store_of cfg.limiter).S
      → Handled F (store_of cfg.limiter).S
  unfolding guarded key_by_ip
  chi cfg ctx r =
      guarded (adapter cfg r) (skips cfg.skip r) cfg.fail_strategy (Any.allow cfg.limiter ctx)
        (or_default cfg.key_extractor key_by_ip r)

-- `type ChiOption func(*ChiConfig)`
abbrev pub ChiOption : Type 0 → Type 1
ChiOption F = ChiConfig F → ChiConfig F

module _ {F : Type 0} where
  unfoldable pub with_chi_key_extractor : KeyExtractor → ChiOption F
  with_chi_key_extractor ke cfg = record cfg { key_extractor = some ke }

  unfoldable pub with_chi_error_handler : (HttpRequest → Result → List (Effect F)) → ChiOption F
  with_chi_error_handler eh cfg = record cfg { error_handler = some eh }

  unfoldable pub with_chi_skip : (HttpRequest → Bool) → ChiOption F
  with_chi_skip skip cfg = record cfg { skip = some skip }

  -- the loop over the options of ChiRateLimit
  abbrev pub apply_all : List (ChiOption F) → ChiConfig F → ChiConfig F
  apply_all [] cfg = cfg
  apply_all (opt ∷ opts) cfg = apply_all opts (opt cfg)

  -- the configuration that ChiRateLimit makes
  abbrev pub chi_config : Limiter F → List (ChiOption F) → ChiConfig F
  chi_config limiter opts = apply_all opts (record {
    limiter = limiter;
    key_extractor = none;
    error_handler = none;
    fail_strategy = fail_open;
    skip = none;
  })

module _ {F : Type 0} ⦃fl : Float64 F⦄ where
  unfoldable pub chi_rate_limit :
      (limiter : Limiter F) (opts : List (ChiOption F))
      → Context
      → HttpRequest
      → Clock
      → (store_of (chi_config limiter opts).limiter).S
      → Handled F (store_of (chi_config limiter opts).limiter).S
  unfolding chi
  chi_rate_limit limiter opts = chi (chi_config limiter opts)

  -- ChiSimple
  unfoldable pub chi_simple :
      (limiter : Limiter F)
      → Context
      → HttpRequest
      → Clock
      → (store_of (chi_config limiter []).limiter).S
      → Handled F (store_of (chi_config limiter []).limiter).S
  unfolding chi
  chi_simple limiter = chi (chi_config limiter [])

-- ChiKeyByURLParam, over chi.URLParam
unfoldable pub chi_key_by_url_param :
    (url_param : HttpRequest → Bytes → Bytes) → Bytes → KeyExtractor
chi_key_by_url_param url_param param r = or_else (url_param r param) (r.query param) (λ val. val)
