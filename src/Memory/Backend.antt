-- ===== src/Memory/Backend.antt =====
-- store/memory.go: the memory store as a storage backend.
use rateshield.Go.Float.{Float64}
use rateshield.Go.{Outcome, ok}
use rateshield.Go.Time.{Clock}
use rateshield.Memory.Legacy.{get, set, increment}
use rateshield.Store.{Store, LegacyStore, State}
use rateshield.Memory.{Memory, reset, close}
use rateshield.Memory.TokenBucket.{allow_token_bucket}
use rateshield.Memory.FixedWindow.{allow_fixed_window}
use rateshield.Memory.SlidingCounter.{allow_sliding_window_counter}
use rateshield.Memory.SlidingLog.{allow_sliding_window_log}

abbrev pub memory_store : {F : Type 0} → Float64 F → Store F
memory_store {F} fl = record {
  S = Memory F;
  reset = reset;
  allow_token_bucket = allow_token_bucket ⦃fl = fl⦄;
  allow_fixed_window = allow_fixed_window ⦃fl = fl⦄;
  allow_sliding_window_counter = allow_sliding_window_counter ⦃fl = fl⦄;
  allow_sliding_window_log = allow_sliding_window_log ⦃fl = fl⦄;
  close = close;
}

-- Get gives no error and writes nothing.
abbrev get_of : {F : Type 0} → State F × Clock → Memory F → Outcome (State F) × Memory F × Clock
get_of (state, clock) m = (ok state, m, clock)

abbrev memory_legacy : {F : Type 0} → Float64 F → LegacyStore F
memory_legacy fl = record {
  store = memory_store fl;
  get = λ ctx key clock m. get_of (get ⦃fl = fl⦄ ctx key clock m) m;
  set = set ⦃fl = fl⦄;
  increment = increment ⦃fl = fl⦄;
}
