-- ===== src/Redis/FixedWindow/Step.antt =====
-- store/redis.go: one run of fwScript, on the number of units that are stored for its window.
use rateshield.Prelude.{
  ℕ, suc, ◌≤◌, ◌≡◌, refl, sym, ap, ◌∙◌, arith, ℤ, pos, true, ◌+ℤ◌, ◌-ℤ◌, ◌≤ℤ◌, ◌<ℤ◌, InInt64,
  Option, none, some, Bytes, bytes_eq, bytes_eq_refl, if◌then◌else◌, Bool-cases, inl, inr,
}
use rateshield.Go.{ok}
use rateshield.Redis.Commands.{
  Commands, IsRedis, Stored, Value, number, live_at, value_of, deadline_of, is_number,
}

-- What is stored for `u` units that are admitted, to be kept up to `keep`: nothing, if there are none,
-- or their number, with a deadline that is not before `keep`.
abbrev pub TracksStored : {F : Type 0} (limit : ℕ) (keep : ℤ) (u : ℕ) → Stored F → Type 0
TracksStored limit keep u none = u ≡ 0
TracksStored limit keep u (some (number v, some deadline)) =
    (v ≡ pos u) × (u ≤ limit) × (keep ≤ℤ deadline)
TracksStored limit keep u _ = ⊥

module _ {F : Type 0} (limit : ℕ) (keep : ℤ) where
  pub live-TracksStored :
      (u : ℕ) (t : ℤ) (o : Stored F)
      → TracksStored limit keep u o
      → t <ℤ keep
      → (live_at t o ≡ o) × (is_number o ≡ true)
  live-TracksStored u t none h lt = (refl, refl)
  live-TracksStored u t (some (number v, some deadline)) h lt = ground (arith, h.2)
  live-TracksStored u t _ h lt = absurd h

  pub value-TracksStored :
      (u : ℕ) (o : Stored F) → TracksStored limit keep u o → (value_of o ≡ pos u) × (u ≤ limit)
  value-TracksStored u none h = (ap pos (sym h), omega arith)
  value-TracksStored u (some (number v, some deadline)) h = (h.0, h.1)
  value-TracksStored u _ h = absurd h

  -- A counter that is not zero has a deadline.
  pub deadline-TracksStored :
      (u : ℕ) (o : Stored F)
      → TracksStored limit keep (suc u) o
      → (x : ℤ) × (deadline_of o ≡ some x) × (keep ≤ℤ x)
  deadline-TracksStored u none h = absurd (omega arith)
  deadline-TracksStored u (some (number v, some deadline)) h = (deadline, refl, h.2)
  deadline-TracksStored u _ h = absurd h

pub in_range : (a : ℕ) → a ≤ 9223372036854775807 → InInt64 (pos a)
in_range a h = record { above = omega arith; below = omega arith }

module _ {F : Type 0} (c : Commands F) (redis : IsRedis c) where
  open redis use {read, incr_by-ok, read-incr_by, decr_by-ok, read-decr_by, read-pexpire}

  -- After some commands the key `k` holds `v` with the deadline `x`, and no other key has changed.
  abbrev pub Holds : (k : Bytes) → (d : c.D) → Value F → Option ℤ → (d' : c.D) → Type 0
  Holds k d v x d' = (j : Bytes) → read j d' ≡ (if bytes_eq k j then some (v, x) else read j d)

  pub Holds-self :
      (k : Bytes) (d : c.D) (v : Value F) (x : Option ℤ) (d' : c.D)
      → Holds k d v x d'
      → read k d' ≡ some (v, x)
  Holds-self k d v x d' h = h k ∙ rw (bytes_eq_refl k) refl

  -- A command that replaces what the key holds.
  pub Holds-again :
      (k : Bytes) (d : c.D) (v w : Value F) (x y : Option ℤ) (d' d'' : c.D)
      → Holds k d v x d'
      → Holds k d' w y d''
      → Holds k d w y d''
  Holds-again k d v w x y d' d'' h h' j = elim (Bool-cases (bytes_eq k j)) [
    | inl same ↦ h' j ∙ rw same refl
    | inr other ↦ h' j ∙ rw other (h j ∙ rw other refl)
  ]

  pub Holds-pexpire :
      (t : ℤ) (k : Bytes) (d : c.D) (v : Value F) (ms : ℤ) (x : Option ℤ) (d' : c.D)
      → Holds k d v x d'
      → live_at t (some (v, x)) ≡ some (v, x)
      → pos 1 ≤ℤ ms
      → Holds k d v (some (t +ℤ ms)) (c.pexpire t k ms d')
  Holds-pexpire t k d v ms x d' h live le =
      let self = Holds-self k d v x d' h in
      Holds-again k d v v x (some (t +ℤ ms)) d' (c.pexpire t k ms d') h
        (λ j. read-pexpire t k ms d' j le ∙ rw (self, live) refl)

  pub Holds-incr_by :
      (t : ℤ) (k : Bytes) (d : c.D) (n : ℤ)
      → live_at t (read k d) ≡ read k d
      → is_number (read k d) ≡ true
      → InInt64 (value_of (read k d) +ℤ n)
      → ((c.incr_by t k n d).0 ≡ ok (value_of (read k d) +ℤ n))
        × Holds k d
            (number (value_of (read k d) +ℤ n))
            (deadline_of (read k d))
            (c.incr_by t k n d).1
  Holds-incr_by t k d n live kind range =
      let kind' : is_number (live_at t (read k d)) ≡ true = rw live kind in
      let range' : InInt64 (value_of (live_at t (read k d)) +ℤ n) = rw live range in
      (
        incr_by-ok t k n d kind' range' ∙ rw live refl,
        λ j. read-incr_by t k n d j kind' range' ∙ rw live refl,
      )

  pub Holds-decr_by :
      (t : ℤ) (k : Bytes) (d : c.D) (v n : ℤ) (x : Option ℤ) (d' : c.D)
      → Holds k d (number v) x d'
      → live_at {F = F} t (some (number v, x)) ≡ some (number v, x)
      → InInt64 (v -ℤ n)
      → ((c.decr_by t k n d').0 ≡ ok (v -ℤ n))
        × Holds k d (number (v -ℤ n)) x (c.decr_by t k n d').1
  Holds-decr_by t k d v n x d' h live range =
      let self = Holds-self k d (number v) x d' h in
      let kind' : is_number (live_at t (read k d')) ≡ true = rw (self, live) refl in
      let range' : InInt64 (value_of (live_at t (read k d')) -ℤ n) = rw (self, live) range in
      (
        decr_by-ok t k n d' kind' range' ∙ rw (self, live) refl,
        Holds-again k d (number v) (number (v -ℤ n)) x x d' (c.decr_by t k n d').1 h
            (λ j. read-decr_by t k n d' j kind' range' ∙ rw (self, live) refl),
      )
