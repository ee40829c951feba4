-- ===== src/Go/Errors.antt =====
-- errors.go, and the errors that come from outside: from a context, from the Redis client.
use mathlib.Core.Option.{Option, none}

pub data Error : Type 0 where
  -- errors.go
  rate_limit_exceeded invalid_key store_unavailable invalid_config : Error
  -- context.Canceled and context.DeadlineExceeded
  canceled deadline_exceeded : Error
  -- errors.New in the store package, by what they report
  client_required invalid_format invalid_types : Error
  -- whatever a client of a network returns
  external : Error

-- A result `(A, error)`: the functions modelled return a zero value beside an error.
pub data Outcome {ℓ} (A : Type ℓ) : Type ℓ where
  ok : A → Outcome A
  err : Error → Outcome A

-- What `ctx.Err()` returns for the call's context.
abbrev pub Context : Type 0
Context = Option Error

abbrev pub background : Context
background = none
