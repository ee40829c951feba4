-- ===== src/Memory/Requests.antt =====
-- The requests that one key makes of a limiter, in the order of time.
use rateshield.Prelude.{ℕ, ◌+◌, ◌≤◌, ◌≤ℤ◌, List, [], ◌∷◌, Bool, false}
use rateshield.Go.{Outcome, ok, err}
use rateshield.Go.Time.{Time}
use rateshield.Store.{EvalResult}
use rateshield.Memory.Window.Order.{InEra}

-- A request for `n` units at an instant.
pub record Request : Type 0 where
  pub at : Time
  pub n : ℕ

-- The requests come in order, from `last` on, between 1970 and 2262, and none is so large that it
-- leaves the int64 range together with the limit.
abbrev pub IsTimeline : (limit : ℕ) → (last : Time) → List Request → Type 0
IsTimeline limit last [] = Unit
IsTimeline limit last (r ∷ rs) =
    (last ≤ℤ r.at) × InEra r.at × (limit + r.n ≤ 9223372036854775807) × IsTimeline limit r.at rs

-- Whether an evaluation lets its request through.
abbrev pub lets_through : Outcome EvalResult → Bool
lets_through (ok res) = res.allowed
lets_through (err e) = false
