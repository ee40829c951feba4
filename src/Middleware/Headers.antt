-- ===== src/Middleware/Headers.antt =====
-- middleware/middleware.go, middleware/fiber.go: what a client reads in the rate limit headers.
use rateshield.Prelude.{
  ℤ, ◌≡◌, refl, ap, Option, none, some, List, [], ◌∷◌, Bytes, bytes_eq, if◌then◌else◌, InInt64,
  int64-InInt64,
}
use rateshield.Go.Float.{Float64}
use rateshield.Go.Text.{bytes}
use rateshield.Go.Text.Decimal.{read_int, read_int-format_int}
use rateshield.Go.Time.{Clock, unix}
use rateshield.Limiter.{Result}
use rateshield.Middleware.{Effect, set_header, set_rate_limit_headers}
use rateshield.Middleware.Fiber.{fiber_headers}

-- The value of a header after some calls that set headers, as a number.
unfoldable pub header_number : {F : Type 0} → Bytes → List (Effect F) → Option ℤ
header_number name [] = none
header_number name (set_header n value ∷ es) =
    let later = header_number name es in
    elim later [ some v ↦ some v | none ↦ if bytes_eq n name then some (read_int value) else none ]
header_number name (_ ∷ es) = header_number name es

module _ {F : Type 0} ⦃fl : Float64 F⦄ where
  -- For a result whose limit and remainder are int64 values, the headers that four of the adapters set
  -- carry its limit, its remainder and its reset in Unix seconds in decimal digits, the first two
  -- under both of their names; Fiber makes the same calls and reads the clock as often.
  pub headers_carry_result :
      (res : Result) (clock : Clock)
      → InInt64 res.limit
      → InInt64 res.remaining
      → let hs = (set_rate_limit_headers {F = F} res clock).0 in
        (header_number (bytes "X-RateLimit-Limit") hs ≡ some res.limit)
        × (header_number (bytes "RateLimit-Limit") hs ≡ some res.limit)
        × (header_number (bytes "X-RateLimit-Remaining") hs ≡ some res.remaining)
        × (header_number (bytes "RateLimit-Remaining") hs ≡ some res.remaining)
        × (header_number (bytes "X-RateLimit-Reset") hs ≡ some (unix res.reset_at))
        × (fiber_headers {F = F} res clock ≡ set_rate_limit_headers res clock)
  unfolding set_rate_limit_headers fiber_headers header_number bytes_eq
  headers_carry_result res clock l r =
      let limit = ap some (read_int-format_int res.limit l) in
      let remaining = ap some (read_int-format_int res.remaining r) in
      let reset : InInt64 (unix res.reset_at) = unfold unix in int64-InInt64 _ in
      (limit, limit, remaining, remaining, ap some (read_int-format_int _ reset), refl)
