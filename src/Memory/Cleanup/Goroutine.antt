-- ===== src/Memory/Cleanup/Goroutine.antt =====
-- store/memory.go: the cleanup goroutine, with the ticks of its ticker and the Close of the store as
-- events in any order.
use rateshield.Prelude.{
  zero, suc, ◌-◌, ℕ, ◌≡◌, refl, ap, ◌∙◌, ◌≤ℤ◌, Bool, true, false, ◌&&◌, not, List, [], ◌∷◌, All,
  Bytes, if◌then◌else◌, Bool-cases, inl, inr,
}
use rateshield.Go.Time.{Time}
use rateshield.Memory.{Memory, find, close, num_shards}
use rateshield.Memory.Shards.{IsWellFormed}
use rateshield.Memory.Window.{live}
use rateshield.Memory.Cleanup.{sweep_shard, sweep_from, remove_expired}
use rateshield.Memory.Cleanup.Invisible.{sweep_shard-IsWellFormed, find-remove_expired, live-live}

-- What happens: a tick of the ticker, at a reading of the clock; a receive from the channel that Close
-- closes; a call of Close.
pub data Event : Type 0 where
  tick : Time → Event
  receive_close : Event
  call_close : Event

-- The goroutine and the store.
pub record Cleaner (F : Type 0) : Type 0 where
  pub running : Bool
  pub memory : Memory F

-- The events come at `t` at the latest.
abbrev pub IsBy : Time → Event → Type 0
IsBy t (tick s) = s ≤ℤ t
IsBy t _ = Unit

received :
    (running closed : Bool)
    → (running ≡ false → closed ≡ true)
    → (running && not closed) ≡ false
    → closed ≡ true
received true true h stopped = refl
received true false h stopped = cc
received false closed h stopped = h refl

module _ {F : Type 0} where
  -- one round of the loop, or a call of Close; a receive waits until the channel is closed
  unfoldable pub respond : Event → Cleaner F → Cleaner F
  respond (tick t) c = if c.running then record c { memory = remove_expired t c.memory } else c
  respond receive_close c = record c { running = c.running && not c.memory.closed }
  respond call_close c = record c { memory = (close c.memory).1 }

  unfoldable pub cleanup : List Event → Cleaner F → Cleaner F
  cleanup [] c = c
  cleanup (e ∷ es) c = cleanup es (respond e c)

  sweep_from-IsWellFormed :
      (t : Time) (n : ℕ) (m : Memory F)
      → IsWellFormed m
      → IsWellFormed (sweep_from t n m) × ((sweep_from t n m).closed ≡ m.closed)
  unfolding sweep_from sweep_shard
  sweep_from-IsWellFormed t zero m h = (h, refl)
  sweep_from-IsWellFormed t (suc n) m h =
      sweep_from-IsWellFormed t n (sweep_shard t (num_shards - suc n) m)
        (sweep_shard-IsWellFormed t (num_shards - suc n) m h)

  remove_expired-IsWellFormed :
      (t : Time) (m : Memory F)
      → IsWellFormed m
      → IsWellFormed (remove_expired t m) × ((remove_expired t m).closed ≡ m.closed)
  unfolding remove_expired
  remove_expired-IsWellFormed t m h = sweep_from-IsWellFormed t num_shards m h

  -- Close changes no shard, and leaves the store closed.
  close-shards : (m : Memory F) → ((close m).1.shards ≡ m.shards) × ((close m).1.closed ≡ true)
  unfolding close
  close-shards m = elim (Bool-cases m.closed) [
    | inl done ↦ rw done (refl, refl)
    | inr open' ↦ rw open' (refl, refl)
  ]

  -- The store is well-formed, and closed if the goroutine has stopped.
  pub record IsRunning (c : Cleaner F) : Type 0 where
    pub well_formed : IsWellFormed c.memory
    pub stops_closed : c.running ≡ false → c.memory.closed ≡ true

  respond-IsRunning :
      (t : Time) (e : Event) (c : Cleaner F)
      → IsBy t e
      → IsRunning c
      → IsRunning (respond e c)
        × ((k : Bytes) → live t (find k (respond e c).memory) ≡ live t (find k c.memory))
  unfolding respond find
  respond-IsRunning t (tick s) c le h =
      let (kept, flag) = remove_expired-IsWellFormed s c.memory h.well_formed in
      elim (Bool-cases c.running) [
        | inl on ↦ rw on (
          record {
            well_formed = kept;
            stops_closed = λ stopped. flag ∙ h.stops_closed (on ∙ stopped);
          },
          λ k.
              ap (live t) (find-remove_expired s k c.memory h.well_formed)
              ∙ live-live s t (find k c.memory) le,
        )
        | inr off ↦ rw off (
          record { well_formed = h.well_formed; stops_closed = λ stopped. h.stops_closed off },
          λ k. refl,
        )
      ]
  respond-IsRunning t receive_close c le h = (
    record {
      well_formed = h.well_formed;
      stops_closed = λ stopped. received _ _ h.stops_closed stopped;
    },
    λ k. refl,
  )
  respond-IsRunning t call_close c le h =
      let (same, closed) = close-shards c.memory in
      (
        record { well_formed = λ i. rw same (h.well_formed i); stops_closed = λ stopped. closed },
        λ k. rw same refl,
      )

  -- In a well-formed store, which is closed if its goroutine has stopped, for all ticks, receives and calls of Close, in any
  -- order and with readings of the clock that are not after `t`: the store stays well-formed, every key
  -- has the live entry at `t` that it had, and the goroutine stops only after Close.
  pub cleanup_is_invisible :
      (t : Time) (es : List Event) (c : Cleaner F)
      → All (IsBy t) es
      → IsRunning c
      → IsRunning (cleanup es c)
        × ((k : Bytes) → live t (find k (cleanup es c).memory) ≡ live t (find k c.memory))
  unfolding cleanup
  cleanup_is_invisible t [] c before h = (h, λ k. refl)
  cleanup_is_invisible t (e ∷ es) c (le, before) h =
      let (h', same) = respond-IsRunning t e c le h in
      let (h'', same') = cleanup_is_invisible t es (respond e c) before h' in
      (h'', λ k. same' k ∙ same k)
