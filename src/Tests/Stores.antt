-- ===== src/Tests/Stores.antt =====
-- The memory store at concrete inputs: a store of one key, its cleanup, and another key.
use rateshield.Prelude.{
  lookup, ◌+ℤ◌, bytes_eq, ℤ, pos, ◌≡◌, refl, arith, none, true, List, [], ◌∷◌, Bytes, +ℤ_parts,
}
use rateshield.Go.Time.{Time, Clock, second, hour, unix_epoch}
use rateshield.Go.Float.{int_float}
use rateshield.Store.{State}
use rateshield.Memory.{Memory, MemEntry, find, put, reset, new, zero_entry}
use rateshield.Memory.Shards.{IsWellFormed, new-IsWellFormed, put-IsWellFormed}
use rateshield.Memory.Window.{live}
use rateshield.Memory.FixedWindow.{allow_fixed_window}
use rateshield.Memory.SlidingCounter.{allow_sliding_window_counter}
use rateshield.Memory.SlidingLog.{allow_sliding_window_log}
use rateshield.Memory.TokenBucket.{allow_token_bucket}
use rateshield.Memory.Legacy.{get, set, increment}
use rateshield.Memory.Legacy.RoundTrip.{get-set}
use rateshield.Memory.Legacy.Counting.{counts_from, increments, increments_count_up}
use rateshield.Go.{ok}
use rateshield.Memory.Cleanup.{remove_expired}
use rateshield.Memory.Cleanup.Goroutine.{
  Event, tick, receive_close, call_close, Cleaner, cleanup, IsRunning, cleanup_is_invisible,
}
use rateshield.Memory.Cleanup.Invisible.{SameToCallers, evaluations_ignore_cleanup}
use rateshield.Memory.Isolation.{calls_keep_other_keys}

abbrev mine : Bytes
mine = 97 ∷ []

abbrev yours : Bytes
yours = 98 ∷ []

abbrev t : Time
t = pos 62135596801000000000

abbrev clock : Clock
clock = λ i. t

abbrev entry : MemEntry ℤ
entry = record zero_entry { count = pos 2; expires_at = t }

abbrev one_entry : Memory ℤ
one_entry = put mine entry new

abbrev state : State ℤ
state = record {
  tokens = pos 3;
  last_update = t;
  count = pos 2;
  window_start = t;
  requests = t ∷ [];
}

one_entry-IsWellFormed : IsWellFormed one_entry
one_entry-IsWellFormed = put-IsWellFormed mine entry new (new-IsWellFormed ℤ)

-- a tick, a call of Close and another tick, and the end of the goroutine
abbrev events : List Event
events = tick t ∷ call_close ∷ tick t ∷ receive_close ∷ []

one_entry-IsRunning : IsRunning (record { running = true; memory = one_entry })
one_entry-IsRunning = record { well_formed = one_entry-IsWellFormed; stops_closed = λ stopped. cc }

cleanup_is_invisible_example :
    let c : Cleaner ℤ = record { running = true; memory = one_entry } in
    IsRunning (cleanup events c)
    × ((k : Bytes) → live t (find k (cleanup events c).memory) ≡ live t (find k one_entry))
cleanup_is_invisible_example =
    cleanup_is_invisible t events (record { running = true; memory = one_entry })
      (omega arith, (tt, (omega arith, (tt, tt)))) one_entry-IsRunning

evaluations_ignore_cleanup_example :
    let m = remove_expired t one_entry in
    SameToCallers t
      (allow_token_bucket none mine (pos 1) (pos 5) (pos 1) hour clock m)
      (allow_token_bucket none mine (pos 1) (pos 5) (pos 1) hour clock one_entry)
    × SameToCallers t
        (allow_fixed_window none mine (pos 3) second (pos 1) hour clock m)
        (allow_fixed_window none mine (pos 3) second (pos 1) hour clock one_entry)
    × SameToCallers t
        (allow_sliding_window_counter none mine (pos 3) second (pos 1) hour clock m)
        (allow_sliding_window_counter none mine (pos 3) second (pos 1) hour clock one_entry)
    × SameToCallers t
        (allow_sliding_window_log none mine (pos 3) second (pos 1) hour clock m)
        (allow_sliding_window_log none mine (pos 3) second (pos 1) hour clock one_entry)
evaluations_ignore_cleanup_example =
    evaluations_ignore_cleanup t none mine (pos 1) (pos 5) (pos 3) (pos 1) second hour clock
      one_entry (omega arith) one_entry-IsWellFormed

calls_keep_other_keys_example :
    (find mine (allow_token_bucket none yours (pos 1) (pos 5) (pos 1) hour clock one_entry).1
      ≡ find mine one_entry)
    × (find mine (allow_fixed_window none yours (pos 3) second (pos 1) hour clock one_entry).1
        ≡ find mine one_entry)
    × (find mine
          (allow_sliding_window_counter none yours (pos 3) second (pos 1) hour clock one_entry).1
        ≡ find mine one_entry)
    × (find mine (allow_sliding_window_log none yours (pos 3) second (pos 1) hour clock one_entry).1
        ≡ find mine one_entry)
    × (find mine (set none yours state hour clock one_entry).1 ≡ find mine one_entry)
    × (find mine (increment none yours hour clock one_entry).1 ≡ find mine one_entry)
    × (find mine (reset none yours one_entry).1 ≡ find mine one_entry)
unfolding bytes_eq
calls_keep_other_keys_example =
    calls_keep_other_keys yours mine none (pos 1) (pos 5) (pos 3) (pos 1) second hour state clock
      one_entry refl

get-set_example :
    (get none yours clock (set none yours state hour clock one_entry).1).0
    ≡ record state { window_start = unix_epoch }
unfolding ◌+ℤ◌
get-set_example = get-set none yours state hour clock clock one_entry

abbrev nothing : Memory ℤ
nothing = new

nothing_stored : find yours nothing ≡ none
unfolding new find lookup
nothing_stored = refl

increments_count_up_example :
    increments 3 none yours hour clock nothing ≡ ok (pos 1) ∷ ok (pos 2) ∷ ok (pos 3) ∷ []
unfolding counts_from
increments_count_up_example =
    increments_count_up 3 none yours hour clock nothing nothing_stored
      (λ i. omega (arith, +ℤ_parts t hour)) (omega arith)
