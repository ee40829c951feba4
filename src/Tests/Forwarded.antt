-- ===== src/Tests/Forwarded.antt =====
-- A request with a blank forwarded address at a limiter with one token.
use rateshield.Prelude.{ℤ, pos, ◌≡◌, refl, [], ◌∷◌, ◌++◌, if◌then◌else◌, bytes_eq, none}
use rateshield.Go.{background}
use rateshield.Go.Float.{int_float}
use rateshield.Go.Http.{HttpRequest}
use rateshield.Go.Text.{bytes, index, trim_space}
use rateshield.Go.Time.{Clock, hour}
use rateshield.Limiter.Any.{Limiter, token_bucket}
use rateshield.Memory.{Memory, new}
use rateshield.Memory.Backend.{memory_store}
use rateshield.Middleware.{call_next}
use rateshield.Middleware.Stdlib.{stdlib_simple}
use rateshield.Middleware.Chi.{chi_simple}
use rateshield.Middleware.Gin.{gin_simple}
use rateshield.Middleware.Bypass.{blank_forwarding_bypasses_limit}
use rateshield.Tests.Requests.{request}

abbrev one_token : Limiter ℤ
one_token =
    token_bucket
      (record { rate = pos 0; capacity = pos 1; store = memory_store int_float; ttl = hour })

abbrev forwarded : HttpRequest
forwarded = record request {
  header = λ name. if bytes_eq name (bytes "X-Forwarded-For") then bytes " ,10.0.0.1" else [];
}

forwarded-header : forwarded.header (bytes "X-Forwarded-For") ≡ bytes " " ++ b',' ∷ bytes "10.0.0.1"
unfolding bytes_eq
forwarded-header = refl

no_comma : index b',' (bytes " ") ≡ none
unfolding index
no_comma = refl

blank_trimmed : trim_space (bytes " ") ≡ []
unfolding trim_space
blank_trimmed = refl

abbrev clock : Clock
clock = λ i. pos 62135596801000000000

abbrev store : Memory ℤ
store = new

blank_forwarding_bypasses_limit_example :
    (stdlib_simple one_token background forwarded clock store ≡ (call_next ∷ [], store, clock))
    × (chi_simple one_token background forwarded clock store ≡ (call_next ∷ [], store, clock))
    × (gin_simple one_token background forwarded clock store ≡ (call_next ∷ [], store, clock))
blank_forwarding_bypasses_limit_example =
    blank_forwarding_bypasses_limit one_token background forwarded (bytes " ") (bytes "10.0.0.1")
      clock store forwarded-header no_comma blank_trimmed
