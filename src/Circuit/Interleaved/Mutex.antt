-- ===== src/Circuit/Interleaved/Mutex.antt =====
-- internal/circuit/circuit.go: the mutex of a breaker that several goroutines share.
use rateshield.Prelude.{
  ℕ, ◌≡◌, ◌≢◌, refl, ◌∙◌, sym, arith, Bool, true, false, not, ◌&&◌, ◌||◌, Option, none, some, List,
  [], ◌∷◌, ◌==◌, if◌then◌else◌, Bool-cases, inl, inr,
}
use rateshield.Go.Time.{Time}
use rateshield.Circuit.{Breaker, Call}
use rateshield.Circuit.Interleaved.{
  Point, idle, allow_load, allow_now, allow_deadline, allow_swap, allow_zero, allow_again,
  success_load, success_clear, success_add, success_lock, success_check, close_failures,
  close_successes, close_state, failure_load, failure_add, trip_lock, trip_now, trip_deadline,
  trip_failures, trip_successes, trip_state, reset_lock, reset_state, reset_failures,
  reset_successes, reset_deadline, unlock, Shared, advance, Move, begin, go_on, begun, move, moves,
  move_to,
}
pub mod Release

-- A goroutine between a call of Lock that has returned and the call of Unlock.
abbrev pub holds : Point → Bool
holds success_check = true
holds close_failures = true
holds close_successes = true
holds close_state = true
holds trip_now = true
holds (trip_deadline now) = true
holds trip_failures = true
holds trip_successes = true
holds trip_state = true
holds reset_state = true
holds reset_failures = true
holds reset_successes = true
holds reset_deadline = true
holds unlock = true
holds _ = false

-- Whether another goroutine has the mutex, for one at a point.
abbrev others : Bool → Point → Bool
others l p = l && not (holds p)

-- An operation takes the mutex only where it is free, and gives back only what it has.
advance-holds :
    (t : Time) (p : Point) (l : Bool) (b : Breaker)
    → (holds p ≡ true → l ≡ true)
    → let (p', l', b') = advance t p l b in
      (l' ≡ (holds p' || others l p)) × ((holds p' && others l p) ≡ false)
unfolding advance
advance-holds t idle l b h = ground arith
advance-holds t allow_load l b h = ground arith
advance-holds t allow_now l b h = ground arith
advance-holds t (allow_deadline now) l b h = ground arith
advance-holds t allow_swap l b h = ground arith
advance-holds t allow_zero l b h = ground arith
advance-holds t allow_again l b h = ground arith
advance-holds t success_load l b h = ground arith
advance-holds t success_clear l b h = ground arith
advance-holds t success_add l b h = ground arith
advance-holds t success_lock l b h = ground arith
advance-holds t success_check l b h = ground arith
advance-holds t close_failures l b h = ground arith
advance-holds t close_successes l b h = ground arith
advance-holds t close_state l b h = ground arith
advance-holds t failure_load l b h = ground arith
advance-holds t failure_add l b h = ground arith
advance-holds t trip_lock l b h = ground arith
advance-holds t trip_now l b h = ground arith
advance-holds t (trip_deadline now) l b h = ground arith
advance-holds t trip_failures l b h = ground arith
advance-holds t trip_successes l b h = ground arith
advance-holds t trip_state l b h = ground arith
advance-holds t reset_lock l b h = ground arith
advance-holds t reset_state l b h = ground arith
advance-holds t reset_failures l b h = ground arith
advance-holds t reset_successes l b h = ground arith
advance-holds t reset_deadline l b h = ground arith
advance-holds t unlock l b h = ground arith

begun-holds : (c : Call) (p : Point) → holds (begun c p) ≡ holds p
begun-holds c p = ground arith

abbrev pub is_taken : Option ℕ → Bool
is_taken none = false
is_taken (some k) = true

abbrev pub is_owner : Option ℕ → ℕ → Bool
is_owner none j = false
is_owner (some k) j = k == j

-- The mutex is taken if it has an owner, and the owner is the one goroutine that holds it.
pub record Owned (o : Option ℕ) (s : Shared) : Type 0 where
  pub taken : s.locked ≡ is_taken o
  pub only : (j : ℕ) → holds (s.points j) ≡ is_owner o j

-- A goroutine that nobody else keeps from the mutex has it or leaves it free.
alone-Owned :
    (i : ℕ) (p : Point) (l : Bool) (b : Breaker) (points : ℕ → Point)
    → l ≡ holds p
    → ((j : ℕ) → (i == j) ≡ false → holds (points j) ≡ false)
    → (o : Option ℕ) × Owned o (record { breaker = b; locked = l; points = move_to i p points })
alone-Owned i p l b points kept rest = elim (Bool-cases (holds p)) [
  | inl yes_ ↦ (
    some i,
    record {
      taken = kept ∙ yes_;
      only = λ j. elim (Bool-cases (i == j)) [
        | inl same ↦ rw same yes_
        | inr other ↦ rw other (rest j other)
      ];
    },
  )
  | inr no_ ↦ (
    none,
    record {
      taken = kept ∙ no_;
      only = λ j. elim (Bool-cases (i == j)) [
        | inl same ↦ rw same no_
        | inr other ↦ rw other (rest j other)
      ];
    },
  )
]

go_on-Owned :
    (i : ℕ) (t : Time) (o : Option ℕ) (s : Shared)
    → Owned o s
    → (o' : Option ℕ) × Owned o' (move (go_on i t) s)
unfolding move
go_on-Owned i t none s h =
    let (p, l, b) = advance t (s.points i) s.locked s.breaker in
    let (kept, apart) =
      advance-holds t (s.points i) s.locked s.breaker (ground (arith, h.only i, h.taken)) in
    alone-Owned i p l b s.points (ground (arith, kept, h.only i, h.taken)) (λ j other. h.only j)
go_on-Owned i t (some k) s h =
    let (p, l, b) = advance t (s.points i) s.locked s.breaker in
    let (kept, apart) =
      advance-holds t (s.points i) s.locked s.breaker (ground (arith, h.only i, h.taken)) in
    elim (Bool-cases (k == i)) [
      | inl mine ↦
          alone-Owned i p l b s.points (ground (arith, kept, h.only i, h.taken, mine))
            (λ j other. ground (arith, h.only j, mine, other))
      | inr theirs ↦ (
        some k,
        record {
          taken = ground (arith, kept, h.only i, h.taken, theirs);
          only = λ j. elim (Bool-cases (i == j)) [
            | inl same ↦ rw same (ground (arith, apart, h.only i, h.taken, theirs, same))
            | inr other ↦ rw other (h.only j)
          ];
        },
      )
    ]

begin-Owned :
    (i : ℕ) (c : Call) (o : Option ℕ) (s : Shared) → Owned o s → Owned o (move (begin i c) s)
unfolding move
begin-Owned i c o s h = record {
  taken = h.taken;
  only = λ j. elim (Bool-cases (i == j)) [
    | inl same ↦
        let ij : i ≡ j = ground arith in rw (same, begun-holds c (s.points i), ij) (h.only j)
    | inr other ↦ rw other (h.only j)
  ];
}

pub moves-Owned :
    (ms : List Move) (o : Option ℕ) (s : Shared)
    → Owned o s
    → (o' : Option ℕ) × Owned o' (moves ms s)
unfolding moves
moves-Owned [] o s h = (o, h)
moves-Owned (begin i c ∷ ms) o s h = moves-Owned ms o (move (begin i c) s) (begin-Owned i c o s h)
moves-Owned (go_on i t ∷ ms) o s h =
    let (o', h') = go_on-Owned i t o s h in moves-Owned ms o' (move (go_on i t) s) h'

pub nobody-Owned : (s : Shared) → ((i : ℕ) → s.points i ≡ idle) → s.locked ≡ false → Owned none s
nobody-Owned s nobody free = record { taken = free; only = λ j. rw (nobody j) refl }

-- In whatever order the operations of any number of goroutines run, and whatever the instants are,
-- from a breaker that nobody is calling and whose mutex is free: while a goroutine is between Lock
-- and Unlock, the mutex is taken and no other goroutine is between them.
pub mutex_is_exclusive :
    (ms : List Move) (s : Shared) (i j : ℕ)
    → ((i : ℕ) → s.points i ≡ idle)
    → s.locked ≡ false
    → holds ((moves ms s).points i) ≡ true
    → i ≢ j
    → ((moves ms s).locked ≡ true) × (holds ((moves ms s).points j) ≡ false)
mutex_is_exclusive ms s i j nobody free here other =
    let (o, h) = moves-Owned ms none s (nobody-Owned s nobody free) in
    let (taken, away) = one_owner o (sym (h.only i) ∙ here) in (h.taken ∙ taken, h.only j ∙ away)
  where
    one_owner : (o : Option ℕ) → is_owner o i ≡ true → (is_taken o ≡ true) × (is_owner o j ≡ false)
    one_owner none e = absurd (ground arith)
    one_owner (some k) e = (refl, ground arith)
