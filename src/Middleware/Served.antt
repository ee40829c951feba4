-- ===== src/Middleware/Served.antt =====
-- middleware/: which requests the frameworks serve, from the calls that a handler makes.
use rateshield.Prelude.{
  ◌≡◌, refl, Bool, true, false, Option, none, some, List, [], ◌∷◌, ◌++◌, arith,
}
use rateshield.Limiter.{Result}
use rateshield.Middleware.{
  Effect, set_header, write_header, write_body, http_error, send_string, send_json, abort_with_json,
  abort, call_next,
}
use rateshield.Middleware.Any.{Arrival, at_stdlib, at_chi, at_gin, at_echo, at_fiber}

module _ {F : Type 0} where
  -- net/http, Chi, Echo and Fiber: the request goes on where the handler calls the next one.
  abbrev pub calls_next : List (Effect F) → Bool
  calls_next [] = false
  calls_next (call_next ∷ es) = true
  calls_next (set_header name value ∷ es) = calls_next es
  calls_next (write_header status ∷ es) = calls_next es
  calls_next (write_body body ∷ es) = calls_next es
  calls_next (http_error body status ∷ es) = calls_next es
  calls_next (send_string status body ∷ es) = calls_next es
  calls_next (send_json status body retry_after ∷ es) = calls_next es
  calls_next (abort_with_json status body ∷ es) = calls_next es
  calls_next (abort ∷ es) = calls_next es

  -- Gin: the handlers that are left run when c.Next is called or when the handler returns, unless
  -- c.Abort or c.AbortWithStatusJSON came before.
  abbrev pub is_not_aborted : List (Effect F) → Bool
  is_not_aborted [] = true
  is_not_aborted (call_next ∷ es) = true
  is_not_aborted (abort_with_json status body ∷ es) = false
  is_not_aborted (abort ∷ es) = false
  is_not_aborted (set_header name value ∷ es) = is_not_aborted es
  is_not_aborted (write_header status ∷ es) = is_not_aborted es
  is_not_aborted (write_body body ∷ es) = is_not_aborted es
  is_not_aborted (http_error body status ∷ es) = is_not_aborted es
  is_not_aborted (send_string status body ∷ es) = is_not_aborted es
  is_not_aborted (send_json status body retry_after ∷ es) = is_not_aborted es

  -- Whether the framework of the arrival serves the request, of which the handler makes these calls.
  abbrev pub serves : Arrival F → List (Effect F) → Bool
  serves (at_stdlib cfg r) es = calls_next es
  serves (at_chi cfg r) es = calls_next es
  serves (at_gin cfg c) es = is_not_aborted es
  serves (at_echo cfg c) es = calls_next es
  serves (at_fiber cfg c) es = calls_next es

  -- A configured error handler does not call the next handler.
  abbrev pub IsQuiet : {C : Type 0} → Option (C → Result → List (Effect F)) → C → Type 0
  IsQuiet none c = Unit {0}
  IsQuiet (some f) c = (res : Result) → calls_next (f c res) ≡ false

  abbrev pub HasQuietHandler : Arrival F → Type 0
  HasQuietHandler (at_stdlib cfg r) = IsQuiet cfg.error_handler r
  HasQuietHandler (at_chi cfg r) = IsQuiet cfg.error_handler r
  HasQuietHandler (at_gin cfg c) = IsQuiet cfg.error_handler c
  HasQuietHandler (at_echo cfg c) = IsQuiet cfg.error_handler c
  HasQuietHandler (at_fiber cfg c) = IsQuiet cfg.error_handler c

  -- Calls without c.Next and with c.Abort at the end stop Gin's chain.
  pub stopped_by_abort :
      (es : List (Effect F)) → calls_next es ≡ false → is_not_aborted (es ++ (abort ∷ [])) ≡ false
  stopped_by_abort [] h = refl
  stopped_by_abort (call_next ∷ es) h = absurd (ground arith)
  stopped_by_abort (abort_with_json status body ∷ es) h = refl
  stopped_by_abort (abort ∷ es) h = refl
  stopped_by_abort (set_header name value ∷ es) h = stopped_by_abort es h
  stopped_by_abort (write_header status ∷ es) h = stopped_by_abort es h
  stopped_by_abort (write_body body ∷ es) h = stopped_by_abort es h
  stopped_by_abort (http_error body status ∷ es) h = stopped_by_abort es h
  stopped_by_abort (send_string status body ∷ es) h = stopped_by_abort es h
  stopped_by_abort (send_json status body retry_after ∷ es) h = stopped_by_abort es h
