-- ===== src/Circuit/Interleaved/Mutex/Release.antt =====
-- internal/circuit/circuit.go: no path of a method keeps the mutex.
use rateshield.Prelude.{
  ℕ, zero, suc, ◌≡◌, refl, sym, ap, ◌∙◌, arith, Bool, true, false, Option, none, some, List,
  replicate, ◌==◌,
}
use rateshield.Go.Time.{Time}
use rateshield.Circuit.{Breaker}
use rateshield.Circuit.Interleaved.{
  Point, idle, allow_load, allow_now, allow_deadline, allow_swap, allow_zero, allow_again,
  success_load, success_clear, success_add, success_lock, success_check, close_failures,
  close_successes, close_state, failure_load, failure_add, trip_lock, trip_now, trip_deadline,
  trip_failures, trip_successes, trip_state, reset_lock, reset_state, reset_failures,
  reset_successes, reset_deadline, unlock, Shared, advance, Move, go_on, move, moves,
}
use rateshield.Circuit.Interleaved.Mutex.{holds, is_taken, is_owner, moves-Owned, nobody-Owned}

-- Some operations of one goroutine, one after the other, at one instant.
unfoldable operations : ℕ → Time → Point × Bool × Breaker → Point × Bool × Breaker
unfolding advance
operations zero t x = x
operations (suc k) t (p, l, b) = operations k t (advance t p l b)

operations-releases :
    (t : Time) (p : Point) (l : Bool) (b : Breaker)
    → holds p ≡ true
    → (operations 6 t (p, l, b)).1 ≡ false
unfolding operations
operations-releases t idle l b h = absurd (ground arith)
operations-releases t allow_load l b h = absurd (ground arith)
operations-releases t allow_now l b h = absurd (ground arith)
operations-releases t (allow_deadline now) l b h = absurd (ground arith)
operations-releases t allow_swap l b h = absurd (ground arith)
operations-releases t allow_zero l b h = absurd (ground arith)
operations-releases t allow_again l b h = absurd (ground arith)
operations-releases t success_load l b h = absurd (ground arith)
operations-releases t success_clear l b h = absurd (ground arith)
operations-releases t success_add l b h = absurd (ground arith)
operations-releases t success_lock l b h = absurd (ground arith)
operations-releases t success_check l b h = ground arith
operations-releases t close_failures l b h = ground arith
operations-releases t close_successes l b h = ground arith
operations-releases t close_state l b h = ground arith
operations-releases t failure_load l b h = absurd (ground arith)
operations-releases t failure_add l b h = absurd (ground arith)
operations-releases t trip_lock l b h = absurd (ground arith)
operations-releases t trip_now l b h = ground arith
operations-releases t (trip_deadline now) l b h = ground arith
operations-releases t trip_failures l b h = ground arith
operations-releases t trip_successes l b h = ground arith
operations-releases t trip_state l b h = ground arith
operations-releases t reset_lock l b h = absurd (ground arith)
operations-releases t reset_state l b h = ground arith
operations-releases t reset_failures l b h = ground arith
operations-releases t reset_successes l b h = ground arith
operations-releases t reset_deadline l b h = ground arith
operations-releases t unlock l b h = ground arith

-- The operations of one goroutine, as moves.
moves-operations :
    (k i : ℕ) (t : Time) (s : Shared)
    → let s' = moves (replicate k (go_on i t)) s in
      (s'.points i, s'.locked, s'.breaker) ≡ operations k t (s.points i, s.locked, s.breaker)
unfolding moves move operations
moves-operations zero i t s = refl
moves-operations (suc k) i t s =
    let here : (i == i) ≡ true = ground arith in
    moves-operations k i t (move (go_on i t) s) ∙ rw here refl

-- In whatever order the operations of any number of goroutines have run, and whatever the instants
-- were, from a breaker that nobody is calling and whose mutex is free: if the mutex is taken, there
-- is a goroutine between Lock and Unlock whose next six operations, at any instant, free it.
pub taken_mutex_is_released :
    (ms : List Move) (s : Shared) (t : Time)
    → ((i : ℕ) → s.points i ≡ idle)
    → s.locked ≡ false
    → (moves ms s).locked ≡ true
    → (i : ℕ) × (holds ((moves ms s).points i) ≡ true)
      × ((moves (replicate 6 (go_on i t)) (moves ms s)).locked ≡ false)
taken_mutex_is_released ms s t nobody free taken =
    let (o, h) = moves-Owned ms none s (nobody-Owned s nobody free) in
    let s' = moves ms s in
    let (i, mine) = owner o (sym h.taken ∙ taken) in
    let here : holds (s'.points i) ≡ true = h.only i ∙ mine in
    (
      i,
      here,
      ap (λ (x : Point × Bool × Breaker). x.1) (moves-operations 6 i t s')
          ∙ operations-releases t (s'.points i) s'.locked s'.breaker here,
    )
  where
    owner : (o : Option ℕ) → is_taken o ≡ true → (i : ℕ) × (is_owner o i ≡ true)
    owner none h = absurd (ground arith)
    owner (some k) h = (k, ground arith)
