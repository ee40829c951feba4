-- ===== src/Memory/Legacy.antt =====
-- store/memory.go: the methods of LegacyStore, Get, Set and Increment.
use rateshield.Prelude.{ℤ, pos, ◌+ℤ◌, if◌then◌else◌, int64, Bytes, Option, none, some, List, []}
use rateshield.Go.{Context, Outcome, ok, Error}
use rateshield.Go.Time.{Time, Duration, Clock, now, later, add, before, unix_epoch, zero_time}
use rateshield.Go.Float.{Float64, nought}
use rateshield.Store.{State}
use rateshield.Memory.{Memory, MemEntry, zero_entry, find, put}
pub mod RoundTrip
pub mod Counting

module _ {F : Type 0} ⦃fl : Float64 F⦄ where
  -- `&State{Tokens: 0, Requests: ...}`
  abbrev pub empty_state : State F
  empty_state = record {
    tokens = nought;
    last_update = zero_time;
    count = pos 0;
    window_start = zero_time;
    requests = [];
  }

  unfoldable pub get_entry : Clock → Option (MemEntry F) → State F × Clock
  get_entry clock none = (empty_state, clock)
  get_entry clock (some e) =
      if before (now clock) e.expires_at
      then (
        record {
          tokens = e.tokens;
          last_update = e.last_upd;
          count = e.count;
          window_start = unix_epoch;
          requests = e.requests;
        },
        later clock,
      )
      else (empty_state, later clock)

  -- Get returns no error.
  unfoldable pub get : Context → Bytes → Clock → Memory F → State F × Clock
  unfolding get_entry
  get ctx key clock m = get_entry clock (find key m)

  unfoldable pub set :
      Context → Bytes → State F → Duration → Clock → Memory F → Option Error × Memory F × Clock
  set ctx key state ttl clock m = (
    none,
    put key
        (record zero_entry {
          tokens = state.tokens;
          last_upd = state.last_update;
          count = state.count;
          requests = state.requests;
          expires_at = add (now clock) ttl;
        })
        m,
    later clock,
  )

  unfoldable pub increment_entry : Time → Duration → Option (MemEntry F) → ℤ × MemEntry F
  increment_entry t ttl none =
      (pos 1, record zero_entry { count = pos 1; last_upd = t; expires_at = add t ttl })
  increment_entry t ttl (some e) =
      if before t e.expires_at
      then (int64 (e.count +ℤ pos 1), record e { count = int64 (e.count +ℤ pos 1); last_upd = t })
      else (pos 1, record zero_entry { count = pos 1; last_upd = t; expires_at = add t ttl })

  unfoldable pub increment :
      Context → Bytes → Duration → Clock → Memory F → Outcome ℤ × Memory F × Clock
  unfolding increment_entry
  increment ctx key ttl clock m =
      let (count, e) = increment_entry (now clock) ttl (find key m) in
      (ok count, put key e m, later clock)
