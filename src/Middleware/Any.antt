-- ===== src/Middleware/Any.antt =====
-- The five adapters of middleware/ as one: a configuration with a request that has come to it.
use rateshield.Prelude.{Bool, Bytes}
use rateshield.Go.{Context}
use rateshield.Go.Float.{Float64}
use rateshield.Go.Http.{HttpRequest}
use rateshield.Go.Time.{Clock}
use rateshield.Keys.{key_by_ip}
use rateshield.Limiter.{FailStrategy}
use rateshield.Limiter.Any.{Limiter, store_of}
use rateshield.Middleware.{Config, Adapter, Handled, or_default, skips}
use rateshield.Middleware.Stdlib
use rateshield.Middleware.Chi
use rateshield.Middleware.Chi.{ChiConfig}
use rateshield.Middleware.Gin
use rateshield.Middleware.Gin.{GinConfig}
use rateshield.Middleware.Echo
use rateshield.Middleware.Echo.{EchoConfig, EchoContext, echo_key_by_ip, skip_or}
use rateshield.Middleware.Fiber
use rateshield.Middleware.Fiber.{FiberConfig, FiberContext, fiber_key_by_ip}

pub data Arrival (F : Type 0) : Type 1 where
  at_stdlib : Config F → HttpRequest → Arrival F
  at_chi : ChiConfig F → HttpRequest → Arrival F
  at_gin : GinConfig F → HttpRequest → Arrival F
  at_echo : EchoConfig F → EchoContext → Arrival F
  at_fiber : FiberConfig F → FiberContext → Arrival F

module _ {F : Type 0} where
  abbrev pub limiter_of : Arrival F → Limiter F
  limiter_of (at_stdlib cfg r) = cfg.limiter
  limiter_of (at_chi cfg r) = cfg.limiter
  limiter_of (at_gin cfg c) = cfg.limiter
  limiter_of (at_echo cfg c) = cfg.limiter
  limiter_of (at_fiber cfg c) = cfg.limiter

  abbrev pub strategy_of : Arrival F → FailStrategy
  strategy_of (at_stdlib cfg r) = cfg.fail_strategy
  strategy_of (at_chi cfg r) = cfg.fail_strategy
  strategy_of (at_gin cfg c) = cfg.fail_strategy
  strategy_of (at_echo cfg c) = cfg.fail_strategy
  strategy_of (at_fiber cfg c) = cfg.fail_strategy

  -- Whether the configuration says to skip the request.
  abbrev pub is_skipped : Arrival F → Bool
  is_skipped (at_stdlib cfg r) = skips cfg.skip r
  is_skipped (at_chi cfg r) = skips cfg.skip r
  is_skipped (at_gin cfg c) = skips cfg.skip c
  is_skipped (at_echo cfg c) = skips (skip_or cfg.skip cfg.skipper) c
  is_skipped (at_fiber cfg c) = skips cfg.skip c

  -- The key that the configuration takes of the request.
  abbrev pub key_of : Arrival F → Bytes
  key_of (at_stdlib cfg r) = or_default cfg.key_extractor key_by_ip r
  key_of (at_chi cfg r) = or_default cfg.key_extractor key_by_ip r
  key_of (at_gin cfg c) = or_default cfg.key_extractor key_by_ip c
  key_of (at_echo cfg c) = or_default cfg.key_extractor echo_key_by_ip c
  key_of (at_fiber cfg c) = or_default cfg.key_extractor fiber_key_by_ip c

module _ {F : Type 0} ⦃fl : Float64 F⦄ where
  abbrev pub adapter_of : Arrival F → Adapter F
  adapter_of (at_stdlib cfg r) = Stdlib.adapter cfg r
  adapter_of (at_chi cfg r) = Chi.adapter cfg r
  adapter_of (at_gin cfg c) = Gin.adapter cfg c
  adapter_of (at_echo cfg c) = Echo.adapter cfg c
  adapter_of (at_fiber cfg c) = Fiber.adapter cfg c

  -- What the handler of the adapter does with the request.
  unfoldable pub handle :
      (a : Arrival F)
      → Context
      → Clock
      → (store_of (limiter_of a)).S
      → Handled F (store_of (limiter_of a)).S
  unfolding Stdlib.stdlib Chi.chi Gin.gin Echo.echo Fiber.fiber
  handle (at_stdlib cfg r) ctx = Stdlib.stdlib cfg ctx r
  handle (at_chi cfg r) ctx = Chi.chi cfg ctx r
  handle (at_gin cfg c) ctx = Gin.gin cfg ctx c
  handle (at_echo cfg c) ctx = Echo.echo cfg ctx c
  handle (at_fiber cfg c) ctx = Fiber.fiber cfg ctx c
