-- ===== src/Tests/Servers.antt =====
-- A server with the middleware at concrete requests.
use rateshield.Prelude.{
  ℤ, All, ◌≡◌, ◌≤◌, refl, arith, pos, ◌+ℤ◌, ◌-ℤ◌, ◌||◌, true, false, none, some, List, [], ◌∷◌, map,
  lookup, if◌then◌else◌,
}
use rateshield.Go.{background}
use rateshield.Go.Text.{last_index, bytes, index}
use rateshield.Go.Time.{Time, Clock, second, unix}
use rateshield.Go.Float.{int_float}
use rateshield.Limiter.{fail_closed, Result}
use rateshield.Limiter.Any
use rateshield.Limiter.Any.{sliding_window}
use rateshield.Limiter.Promise.{in_memory}
use rateshield.Memory.{Memory, find, new}
use rateshield.Memory.Requests.{IsTimeline}
use rateshield.Memory.SlidingLog.Exact.{admitted}
use rateshield.Keys.{key_by_ip}
use rateshield.Go.Address.{split_host}
use rateshield.Middleware.{write_header, default_error_handler, set_rate_limit_headers}
use rateshield.Middleware.Any.{Arrival, at_gin, handle, limiter_of, strategy_of, key_of}
use rateshield.Middleware.Fiber.{fiber_headers}
use rateshield.Middleware.Headers.{header_number, headers_carry_result}
use rateshield.Middleware.Quota.{Visit, one_unit, served, server_keeps_limit}
use rateshield.Middleware.Served.{calls_next, serves}
use rateshield.Middleware.Verdict.{passes, unchecked, adapters_serve_what_passes}
use rateshield.Tests.Requests.{request}

abbrev t : Time
t = pos 62135596801000000000

abbrev clock : Clock
clock = λ i. t

abbrev store : Memory ℤ
store = new

-- A request to Gin, with a custom handler that only writes a status.
abbrev arrival : Arrival ℤ
arrival =
    at_gin
      (record {
        limiter = sliding_window (in_memory 1 second (pos 2_000_000_000));
        key_extractor = none;
        error_handler = some (λ c res. write_header 429 ∷ []);
        fail_strategy = fail_closed;
        skip = none;
      })
      request

adapters_serve_what_passes_example :
    let check = Any.allow (limiter_of arrival) background (key_of arrival) clock store in
    (serves arrival (handle arrival background clock store).0
      ≡ (unchecked arrival || passes (strategy_of arrival) check.0))
    × ((handle arrival background clock store).1 ≡ (if unchecked arrival then store else check.1))
adapters_serve_what_passes_example =
    adapters_serve_what_passes arrival background clock store (λ res. refl)

-- three requests within a second
abbrev visits : List Visit
visits =
    record { request = request; at = t }
    ∷ record { request = request; at = pos 62135596801300000000 }
    ∷ record { request = request; at = pos 62135596801500000000 }
    ∷ []

visits-IsTimeline : IsTimeline 2 t (map one_unit visits)
unfolding ◌-ℤ◌
visits-IsTimeline = ground arith

nothing_stored : find (bytes "::1") store ≡ none
unfolding new find lookup
nothing_stored = refl

same_keys : All (λ (v : Visit). key_by_ip v.request ≡ bytes "::1") visits
unfolding key_by_ip split_host index last_index
same_keys = (refl, (refl, (refl, tt)))

default_handler_refuses : (res : Result) → calls_next (default_error_handler {F = ℤ} res) ≡ false
unfolding default_error_handler
default_handler_refuses res = refl

server_keeps_limit_example :
    admitted t
      (t +ℤ second)
      (map one_unit visits)
      (served 2 second (pos 2_000_000_000) none none fail_closed store visits)
    ≤ 2
server_keeps_limit_example =
    server_keeps_limit 2 second (pos 2_000_000_000) none none fail_closed b':' (bytes ":1") t t
      store visits (λ r res. default_handler_refuses res) same_keys (omega arith) (omega arith)
      nothing_stored visits-IsTimeline

abbrev result : Result
result = record {
  allowed = true;
  limit = pos 100;
  remaining = pos 42;
  reset_at = t;
  retry_after = pos 0;
}

headers_carry_result_example :
    let hs = (set_rate_limit_headers {F = ℤ} result clock).0 in
    (header_number (bytes "X-RateLimit-Limit") hs ≡ some (pos 100))
    × (header_number (bytes "RateLimit-Limit") hs ≡ some (pos 100))
    × (header_number (bytes "X-RateLimit-Remaining") hs ≡ some (pos 42))
    × (header_number (bytes "RateLimit-Remaining") hs ≡ some (pos 42))
    × (header_number (bytes "X-RateLimit-Reset") hs ≡ some (unix t))
    × (fiber_headers {F = ℤ} result clock ≡ set_rate_limit_headers result clock)
headers_carry_result_example =
    headers_carry_result result clock (record { above = omega arith; below = omega arith })
      (record { above = omega arith; below = omega arith })
