-- ===== src/Circuit/Interleaved.antt =====
-- internal/circuit/circuit.go: the methods of a breaker that several goroutines share, with their
-- atomic operations as single steps, in any order. What Allow returns is left out.
use rateshield.Prelude.{
  ℕ, ℤ, pos, ◌+ℤ◌, leb_ℤ, ltb_ℤ, Bool, true, false, List, [], ◌∷◌, ◌==◌, if◌then◌else◌, int64,
}
use rateshield.Go.Time.{Time, unix_nano}
use rateshield.Circuit.{
  State, closed, open_, half_open, is_state, Breaker, Call, allow_call, success_call, failure_call,
  reset_call,
}
pub mod Closing
pub mod Mutex

-- Where a goroutine stands: between calls, or before the named operation of a method. A `time.Now()`
-- that has been read is kept until it is used.
pub data Point : Type 0 where
  idle : Point
  allow_load allow_now allow_swap allow_zero allow_again : Point
  allow_deadline : (now : ℤ) → Point
  success_load success_clear success_add success_lock success_check : Point
  close_failures close_successes close_state : Point
  failure_load failure_add : Point
  trip_lock trip_now trip_failures trip_successes trip_state : Point
  trip_deadline : (now : ℤ) → Point
  reset_lock reset_state reset_failures reset_successes reset_deadline : Point
  unlock : Point

-- The breaker, whether its mutex is taken, and the goroutines.
pub record Shared : Type 0 where
  pub breaker : Breaker
  pub locked : Bool
  pub points : ℕ → Point

abbrev pub entry : Call → Point
entry allow_call = allow_load
entry success_call = success_load
entry failure_call = failure_load
entry reset_call = reset_lock

-- the points after the load of the state at the start of a method
abbrev pub allow_loaded : State → Point
allow_loaded closed = idle
allow_loaded open_ = allow_now
allow_loaded half_open = idle

abbrev pub success_loaded : State → Point
success_loaded closed = success_clear
success_loaded open_ = idle
success_loaded half_open = success_add

abbrev pub failure_loaded : State → Point
failure_loaded closed = failure_add
failure_loaded open_ = idle
failure_loaded half_open = trip_lock

-- One operation of a goroutine at a point, at the instant `t`. A goroutine waits for the mutex as
-- long as it is taken.
unfoldable pub advance : (t : Time) → Point → (locked : Bool) → Breaker → Point × Bool × Breaker
advance t idle l b = (idle, l, b)
advance t allow_load l b = (allow_loaded b.state, l, b)
advance t allow_now l b = (allow_deadline (unix_nano t), l, b)
advance t (allow_deadline now) l b = (if ltb_ℤ now b.open_until then idle else allow_swap, l, b)
advance t allow_swap l b =
    if is_state b.state open_
    then (allow_zero, l, record b { state = half_open })
    else (allow_again, l, b)
advance t allow_zero l b = (idle, l, record b { success_count = pos 0 })
advance t allow_again l b = (idle, l, b)
advance t success_load l b = (success_loaded b.state, l, b)
advance t success_clear l b = (idle, l, record b { failure_count = pos 0 })
advance t success_add l b =
    let succ = int64 (b.success_count +ℤ pos 1) in
    (
      if leb_ℤ b.success_threshold succ then success_lock else idle,
      l,
      record b { success_count = succ },
    )
advance t success_lock l b = (if l then success_lock else success_check, true, b)
advance t success_check l b = (if is_state b.state half_open then close_failures else unlock, l, b)
advance t close_failures l b = (close_successes, l, record b { failure_count = pos 0 })
advance t close_successes l b = (close_state, l, record b { success_count = pos 0 })
advance t close_state l b = (unlock, l, record b { state = closed })
advance t failure_load l b = (failure_loaded b.state, l, b)
advance t failure_add l b =
    let fails = int64 (b.failure_count +ℤ pos 1) in
    (
      if leb_ℤ b.failure_threshold fails then trip_lock else idle,
      l,
      record b { failure_count = fails },
    )
advance t trip_lock l b = (if l then trip_lock else trip_now, true, b)
advance t trip_now l b = (trip_deadline (unix_nano t), l, b)
advance t (trip_deadline now) l b =
    (trip_failures, l, record b { open_until = int64 (now +ℤ b.cooldown) })
advance t trip_failures l b = (trip_successes, l, record b { failure_count = pos 0 })
advance t trip_successes l b = (trip_state, l, record b { success_count = pos 0 })
advance t trip_state l b = (unlock, l, record b { state = open_ })
advance t reset_lock l b = (if l then reset_lock else reset_state, true, b)
advance t reset_state l b = (reset_failures, l, record b { state = closed })
advance t reset_failures l b = (reset_successes, l, record b { failure_count = pos 0 })
advance t reset_successes l b = (reset_deadline, l, record b { success_count = pos 0 })
advance t reset_deadline l b = (unlock, l, record b { open_until = pos 0 })
advance t unlock l b = (idle, false, b)

abbrev pub move_to : ℕ → Point → (ℕ → Point) → ℕ → Point
move_to i p points j = if i == j then p else points j

-- A move of the goroutine `i`: it begins a call if it is idle, or it makes its next operation.
pub data Move : Type 0 where
  begin : (i : ℕ) → Call → Move
  go_on : (i : ℕ) → Time → Move

abbrev pub begun : Call → Point → Point
begun c idle = entry c
begun c p = p

unfoldable pub move : Move → Shared → Shared
unfolding advance
move (begin i c) s = record s { points = move_to i (begun c (s.points i)) s.points }
move (go_on i t) s =
    let (p, l, b) = advance t (s.points i) s.locked s.breaker in
    record { breaker = b; locked = l; points = move_to i p s.points }

unfoldable pub moves : List Move → Shared → Shared
unfolding move
moves [] s = s
moves (m ∷ ms) s = moves ms (move m s)
