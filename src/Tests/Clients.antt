-- ===== src/Tests/Clients.antt =====
-- The loop of Reset at a concrete client.
use rateshield.Prelude.{ℤ, ℕ, pos, ◌≡◌, refl, arith, none, some, [], ◌∷◌, ◌==◌, if◌then◌else◌}
use rateshield.Go.{ok, background}
use rateshield.Go.Text.{bytes}
use rateshield.Redis.{Client, Redis, missing, reset, other_raw}
use rateshield.Redis.Resetting.{Scans, reset_ends_with_scan}
use rateshield.Redis.Resetting.Scans.{more, last}

-- A server whose state is the number of scans that it has answered; a scan takes two calls.
abbrev client : Client ℤ
client = record {
  S = ℕ;
  get = λ ctx key s. (missing, s);
  set = λ ctx key value ttl s. (none, s);
  incr_expire = λ ctx key ttl s. (ok (pos 1), s);
  scan = λ ctx cursor pattern count s.
      if cursor == 0
      then (ok (bytes "p:k:fw:1" ∷ [], 7), 1)
      else (ok (bytes "p:k:fw:2" ∷ [], 0), 2);
  del = λ ctx keys s. (none, 3);
  run = λ script ctx keys args s. (ok other_raw, s);
  close = λ s. (none, s);
}

abbrev redis : Redis ℤ
redis = record { client = client; prefix = bytes "p:" }

two_calls :
    Scans redis background (bytes "p:k:*") 0 0 2 (bytes "p:k:fw:1" ∷ bytes "p:k:fw:2" ∷ []) 2
two_calls = more refl (omega arith) (last refl)

reset_ends_with_scan_example : reset redis 10 background (bytes "k") 0 ≡ some (none, 3)
reset_ends_with_scan_example =
    reset_ends_with_scan redis background (bytes "k") 10 two_calls (omega arith)
