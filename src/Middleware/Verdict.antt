-- ===== src/Middleware/Verdict.antt =====
-- middleware/: every adapter serves the requests that the limiter lets through, and no others.
use rateshield.Prelude.{
  ◌≡◌, refl, ◌∙◌, Bool, true, false, ◌||◌, Option, none, some, List, [], ◌∷◌, ◌++◌, Bytes,
  if◌then◌else◌,
}
use rateshield.Go.{Context, Outcome, ok, err}
use rateshield.Go.Float.{Float64}
use rateshield.Go.Http.{HttpRequest}
use rateshield.Go.Time.{Clock}
use rateshield.Limiter.{FailStrategy, fail_open, fail_closed, Result, Checked}
use rateshield.Limiter.Any
use rateshield.Limiter.Any.{store_of}
use rateshield.Middleware.{
  Config, Effect, Adapter, call_next, guarded, set_rate_limit_headers, respond, or_default,
  default_error_handler,
}
use rateshield.Middleware.Stdlib
use rateshield.Middleware.Any.{
  Arrival, limiter_of, strategy_of, is_skipped, key_of, adapter_of, handle, at_stdlib, at_chi,
  at_gin, at_echo, at_fiber,
}
use rateshield.Middleware.Chi.{default_chi_error_handler}
use rateshield.Middleware.Gin.{default_gin_error_handler}
use rateshield.Middleware.Echo.{default_echo_error_handler}
use rateshield.Middleware.Fiber.{fiber_headers, default_fiber_error_handler}
use rateshield.Middleware.Served.{calls_next, serves, stopped_by_abort, IsQuiet, HasQuietHandler}

abbrev is_empty : Bytes → Bool
is_empty [] = true
is_empty (c ∷ key) = false

-- Whether a check lets its request pass, with what the strategy says of a store that fails.
abbrev pub passes : FailStrategy → Outcome Result → Bool
passes strategy (ok res) = res.allowed
passes fail_open (err e) = true
passes fail_closed (err e) = false

-- The requests that the limiter is not asked about.
abbrev pub unchecked : {F : Type 0} → Arrival F → Bool
unchecked a = is_skipped a || is_empty (key_of a)

next_or :
    {F : Type 0} (goes_on : List (Effect F) → Bool) (b : Bool) (es : List (Effect F))
    → goes_on (call_next ∷ []) ≡ true
    → goes_on es ≡ false
    → goes_on (if b then call_next ∷ [] else es) ≡ b
next_or goes_on true es next h = next
next_or goes_on false es next h = h

module _ {F S : Type 0} (a : Adapter F) (goes_on : List (Effect F) → Bool)
    (next : goes_on (call_next ∷ []) ≡ true) (failure : goes_on a.failure ≡ false)
    (headers : (res : Result) (clock : Clock) (es : List (Effect F))
      → goes_on ((a.headers res clock).0 ++ es) ≡ goes_on es)
    (refuse : (res : Result) → goes_on (a.refuse res) ≡ false) where
  respond-passes :
      (strategy : FailStrategy) (check : Checked S)
      → (goes_on (respond a strategy check).0 ≡ passes strategy check.0)
        × ((respond a strategy check).1 ≡ check.1)
  unfolding respond
  respond-passes strategy (ok res, st, clock) =
      let answer = if res.allowed then call_next ∷ [] else a.refuse res in
      (
        headers res clock answer ∙ next_or goes_on res.allowed (a.refuse res) next (refuse res),
        refl,
      )
  respond-passes fail_open (err e, st, clock) = (next, refl)
  respond-passes fail_closed (err e, st, clock) = (failure, refl)

  -- What the chain of checks comes to, in a framework that takes these effects so.
  guarded-passes :
      (skip : Bool) (strategy : FailStrategy) (allow : Bytes → Clock → S → Checked S) (key : Bytes)
      (clock : Clock) (st : S)
      → let check = allow key clock st in
        let run = guarded a skip strategy allow key clock st in
        (goes_on run.0 ≡ (skip || is_empty key || passes strategy check.0))
        × (run.1 ≡ (if skip || is_empty key then st else check.1))
  unfolding guarded
  guarded-passes true strategy allow key clock st = (next, refl)
  guarded-passes false strategy allow [] clock st = (next, refl)
  guarded-passes false strategy allow (c ∷ key) clock st =
      respond-passes strategy (allow (c ∷ key) clock st)

module _ {F : Type 0} ⦃fl : Float64 F⦄ where
  -- Every adapter is the chain of checks with its own calls.
  handle-guarded :
      (a : Arrival F) (ctx : Context) (clock : Clock) (st : (store_of (limiter_of a)).S)
      → handle a ctx clock st
        ≡ guarded
            (adapter_of a)
            (is_skipped a)
            (strategy_of a)
            (Any.allow (limiter_of a) ctx)
            (key_of a)
            clock
            st
  unfolding handle
  handle-guarded (at_stdlib cfg r) ctx clock st = refl
  handle-guarded (at_chi cfg r) ctx clock st = refl
  handle-guarded (at_gin cfg c) ctx clock st = refl
  handle-guarded (at_echo cfg c) ctx clock st = refl
  handle-guarded (at_fiber cfg c) ctx clock st = refl

  next-serves : (a : Arrival F) → serves a (call_next ∷ []) ≡ true
  next-serves (at_stdlib cfg r) = refl
  next-serves (at_chi cfg r) = refl
  next-serves (at_gin cfg c) = refl
  next-serves (at_echo cfg c) = refl
  next-serves (at_fiber cfg c) = refl

  failure-serves : (a : Arrival F) → serves a (adapter_of a).failure ≡ false
  failure-serves (at_stdlib cfg r) = refl
  failure-serves (at_chi cfg r) = refl
  failure-serves (at_gin cfg c) = refl
  failure-serves (at_echo cfg c) = refl
  failure-serves (at_fiber cfg c) = refl

  headers-serves :
      (a : Arrival F) (res : Result) (clock : Clock) (es : List (Effect F))
      → serves a (((adapter_of a).headers res clock).0 ++ es) ≡ serves a es
  unfolding set_rate_limit_headers fiber_headers
  headers-serves (at_stdlib cfg r) res clock es = refl
  headers-serves (at_chi cfg r) res clock es = refl
  headers-serves (at_gin cfg c) res clock es = refl
  headers-serves (at_echo cfg c) res clock es = refl
  headers-serves (at_fiber cfg c) res clock es = refl

  -- The default handler of an adapter, or the configured one that is quiet.
  or_default-IsQuiet :
      {C : Type 0} (handler : Option (C → Result → List (Effect F)))
      (other : Result → List (Effect F)) (c : C) (res : Result)
      → calls_next (other res) ≡ false
      → IsQuiet handler c
      → calls_next (or_default handler (λ c. other) c res) ≡ false
  or_default-IsQuiet none other c res h quiet = h
  or_default-IsQuiet (some f) other c res h quiet = quiet res

  refuse-serves :
      (a : Arrival F)
      → HasQuietHandler a
      → (res : Result) → serves a ((adapter_of a).refuse res) ≡ false
  unfolding default_error_handler default_chi_error_handler default_gin_error_handler
      default_echo_error_handler default_fiber_error_handler
  refuse-serves (at_stdlib cfg r) quiet res =
      or_default-IsQuiet cfg.error_handler default_error_handler r res refl quiet
  refuse-serves (at_chi cfg r) quiet res =
      or_default-IsQuiet cfg.error_handler default_chi_error_handler r res refl quiet
  refuse-serves (at_gin cfg c) quiet res =
      stopped_by_abort (or_default cfg.error_handler (λ c. default_gin_error_handler) c res)
        (or_default-IsQuiet cfg.error_handler default_gin_error_handler c res refl quiet)
  refuse-serves (at_echo cfg c) quiet res =
      or_default-IsQuiet cfg.error_handler default_echo_error_handler c res refl quiet
  refuse-serves (at_fiber cfg c) quiet res =
      or_default-IsQuiet cfg.error_handler default_fiber_error_handler c res refl quiet

  -- The middleware for net/http, for an error handler that is quiet about its own requests.
  pub stdlib_serves_what_passes :
      (cfg : Config F) (r : HttpRequest) (ctx : Context) (clock : Clock)
      (st : (store_of cfg.limiter).S)
      → ((res : Result) → calls_next ((Stdlib.adapter cfg r).refuse res) ≡ false)
      → let a = at_stdlib cfg r in
        let check = Any.allow cfg.limiter ctx (key_of a) clock st in
        (calls_next (handle a ctx clock st).0 ≡ (unchecked a || passes cfg.fail_strategy check.0))
        × ((handle a ctx clock st).1 ≡ (if unchecked a then st else check.1))
  stdlib_serves_what_passes cfg r ctx clock st quiet =
      let a = at_stdlib cfg r in
      rw (handle-guarded a ctx clock st) (
        guarded-passes (adapter_of a) (serves a) (next-serves a) (failure-serves a)
          (headers-serves a) quiet (is_skipped a) (strategy_of a) (Any.allow cfg.limiter ctx)
          (key_of a) clock st)

  -- For each of the five adapters, with its default error handler or a configured one that does not
  -- call the next handler: the request is served, as the framework takes the calls of the handler,
  -- if and only if it is skipped, has an empty key, or passes the check of its key, for which a store
  -- that fails counts as a pass under FailOpen and not under FailClosed; and the store is asked
  -- unless the request is skipped or has an empty key, and is left as it is if so.
  pub adapters_serve_what_passes :
      (a : Arrival F) (ctx : Context) (clock : Clock) (st : (store_of (limiter_of a)).S)
      → HasQuietHandler a
      → let check = Any.allow (limiter_of a) ctx (key_of a) clock st in
        (serves a (handle a ctx clock st).0 ≡ (unchecked a || passes (strategy_of a) check.0))
        × ((handle a ctx clock st).1 ≡ (if unchecked a then st else check.1))
  adapters_serve_what_passes a ctx clock st quiet = rw (handle-guarded a ctx clock st) (
      guarded-passes (adapter_of a) (serves a) (next-serves a) (failure-serves a) (headers-serves a)
        (refuse-serves a quiet) (is_skipped a) (strategy_of a) (Any.allow (limiter_of a) ctx)
        (key_of a) clock st)
