-- ===== src/Memory/Legacy/RoundTrip.antt =====
-- store/memory.go: what Get reads after Set.
use rateshield.Prelude.{◌≡◌, arith, Bytes, if◌then◌else◌}
use rateshield.Go.{Context}
use rateshield.Go.Time.{Duration, Clock, now, add, before, unix_epoch}
use rateshield.Go.Float.{Float64}
use rateshield.Store.{State}
use rateshield.Memory.{Memory}
use rateshield.Memory.Shards.{find-put_self}
use rateshield.Memory.Legacy.{get, set, empty_state}

module _ {F : Type 0} ⦃fl : Float64 F⦄ where
  -- A Get that follows a Set of the same key reads the tokens, the last update, the count and the
  -- requests of the state that was set, and the start of 1970 for the start of its window, as long as
  -- the clock has not reached the reading at the Set plus the TTL, and the empty state from then on.
  pub get-set :
      (ctx : Context) (key : Bytes) (state : State F) (ttl : Duration) (clock clock' : Clock)
      (m : Memory F)
      → (get ctx key clock' (set ctx key state ttl clock m).1).0 ≡ (
          if before (now clock') (add (now clock) ttl)
          then record state { window_start = unix_epoch }
          else empty_state)
  unfolding get set
  get-set ctx key state ttl clock clock' m = rw (find-put_self key _ m) (ground arith)
