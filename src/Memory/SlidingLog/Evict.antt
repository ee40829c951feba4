-- ===== src/Memory/SlidingLog/Evict.antt =====
-- store/memory.go: the loops of AllowSlidingWindowLog over a log of timestamps in order.
use rateshield.Prelude.{
  ℕ, zero, suc, ◌≤◌, ◌≡◌, refl, sym, ◌∙◌, ap, arith, ◌≤ℤ◌, ◌<ℤ◌, List, [], ◌∷◌, ◌++◌, All,
  All-append, length, drop, replicate, if◌then◌else◌, Bool-cases, inl, inr,
}
use mathlib.Core.List.{append_assoc, append-nil}
use rateshield.Go.Time.{Time, after}
use rateshield.Memory.SlidingLog.{cutoff, append_times}

-- The timestamps after an instant, in any order.
unfoldable pub filter_after : Time → List Time → List Time
filter_after start [] = []
filter_after start (r ∷ rs) =
    let rest = filter_after start rs in if after r start then r ∷ rest else rest

-- The timestamps stand in the order of time.
abbrev pub IsSorted : List Time → Type 0
IsSorted [] = Unit
IsSorted (r ∷ rs) = All (λ s. r ≤ℤ s) rs × IsSorted rs

filter_after_id :
    (start r : Time) (rs : List Time)
    → start <ℤ r
    → All (λ s. r ≤ℤ s) rs
    → filter_after start rs ≡ rs
unfolding filter_after
filter_after_id start r [] lt h = refl
filter_after_id start r (s ∷ rs) lt h = ground (arith, filter_after_id start r rs lt h.1)

-- On a log in order, the loop and the re-slicing drop just the timestamps that are not after the
-- start of the window.
pub evict-filter :
    (start : Time) (rs : List Time)
    → IsSorted rs
    → drop (cutoff start rs) rs ≡ filter_after start rs
unfolding cutoff filter_after
evict-filter start [] h = refl
evict-filter start (r ∷ rs) h = elim (Bool-cases (after r start)) [
  | inl young ↦ rw young (ap (◌∷◌ r) (sym (filter_after_id start r rs (ground arith) h.0)))
  | inr old ↦ rw old (evict-filter start rs h.1)
]

pub filter_after-All :
    (P : Time → Type 0) (start : Time) (rs : List Time) → All P rs → All P (filter_after start rs)
unfolding filter_after
filter_after-All P start [] h = tt
filter_after-All P start (r ∷ rs) h = elim (Bool-cases (after r start)) [
  | inl young ↦ rw young (h.0, filter_after-All P start rs h.1)
  | inr old ↦ rw old (filter_after-All P start rs h.1)
]

pub filter_after-IsSorted :
    (start : Time) (rs : List Time) → IsSorted rs → IsSorted (filter_after start rs)
unfolding filter_after
filter_after-IsSorted start [] h = tt
filter_after-IsSorted start (r ∷ rs) h = elim (Bool-cases (after r start)) [
  | inl young ↦
      rw young (filter_after-All (λ s. r ≤ℤ s) start rs h.0, filter_after-IsSorted start rs h.1)
  | inr old ↦ rw old (filter_after-IsSorted start rs h.1)
]

-- To filter twice is to filter by the later start.
pub filter_after-filter_after :
    (s t : Time) (rs : List Time) → s ≤ℤ t → filter_after t (filter_after s rs) ≡ filter_after t rs
unfolding filter_after
filter_after-filter_after s t [] h = refl
filter_after-filter_after s t (r ∷ rs) h = ground (arith, filter_after-filter_after s t rs h)

pub filter_after-append :
    (t : Time) (rs qs : List Time)
    → filter_after t (rs ++ qs) ≡ filter_after t rs ++ filter_after t qs
unfolding filter_after
filter_after-append t [] qs = refl
filter_after-append t (r ∷ rs) qs = ground (arith, filter_after-append t rs qs)

pub filter_after-replicate :
    (start t : Time) (n : ℕ) → start <ℤ t → filter_after start (replicate n t) ≡ replicate n t
unfolding filter_after
filter_after-replicate start t zero h = refl
filter_after-replicate start t (suc n) h = ground (arith, filter_after-replicate start t n h)

pub filter_after_none :
    (start last : Time) (rs : List Time)
    → last ≤ℤ start
    → All (λ s. s ≤ℤ last) rs
    → filter_after start rs ≡ []
unfolding filter_after
filter_after_none start last [] le h = refl
filter_after_none start last (r ∷ rs) le h = ground (arith, filter_after_none start last rs le h.1)

pub length-filter_after-le :
    (start : Time) (rs : List Time) → length (filter_after start rs) ≤ length rs
unfolding filter_after
length-filter_after-le start [] = omega arith
length-filter_after-le start (r ∷ rs) = ground (arith, length-filter_after-le start rs)

-- The loop that appends one timestamp `n` times.
pub append_times-replicate :
    (n : ℕ) (t : Time) (rs : List Time) → append_times n t rs ≡ rs ++ replicate n t
unfolding append_times
append_times-replicate zero t rs = sym (append-nil rs)
append_times-replicate (suc n) t rs =
    append_times-replicate n t (rs ++ (t ∷ [])) ∙ append_assoc rs (t ∷ []) (replicate n t)

replicate-All : (P : Time → Type 0) (n : ℕ) (t : Time) → P t → All P (replicate n t)
replicate-All P zero t h = tt
replicate-All P (suc n) t h = (h, replicate-All P n t h)

pub append-replicate-All :
    (last : Time) (n : ℕ) (t : Time) (rs : List Time)
    → last ≤ℤ t
    → All (λ s. s ≤ℤ last) rs
    → All (λ s. s ≤ℤ t) (rs ++ replicate n t)
append-replicate-All last n t [] le h = replicate-All (λ s. s ≤ℤ t) n t (omega arith)
append-replicate-All last n t (r ∷ rs) le h =
    (omega (arith, h.0), append-replicate-All last n t rs le h.1)

replicate-IsSorted : (n : ℕ) (t : Time) → IsSorted (replicate n t)
replicate-IsSorted zero t = tt
replicate-IsSorted (suc n) t =
    (replicate-All (λ s. t ≤ℤ s) n t (omega arith), replicate-IsSorted n t)

-- To append the latest timestamp keeps the order.
pub append-replicate-IsSorted :
    (last : Time) (n : ℕ) (t : Time) (rs : List Time)
    → last ≤ℤ t
    → All (λ s. s ≤ℤ last) rs
    → IsSorted rs
    → IsSorted (rs ++ replicate n t)
append-replicate-IsSorted last n t [] le h sorted = replicate-IsSorted n t
append-replicate-IsSorted last n t (r ∷ rs) le h sorted = (
  All-append (λ s. r ≤ℤ s) rs (replicate n t) sorted.0
      (replicate-All (λ s. r ≤ℤ s) n t (omega (arith, h.0))),
  append-replicate-IsSorted last n t rs le h.1 sorted.1,
)
