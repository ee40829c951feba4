-- ===== src/Memory/TokenBucket/Burst.antt =====
-- store/memory.go: a burst of requests at one instant against AllowTokenBucket.
use rateshield.Prelude.{
  ℕ, ◌+◌, ◌-◌, ◌≤◌, pos, ◌-ℤ◌, ◌≤ℤ◌, ◌≡◌, refl, ◌∙◌, ap, ap₂, arith, +ℤ_parts, eq_of_parts,
  int_laws, quot, ◌*ℤ◌, Bool, true, false, Option, none, some, List, [], ◌∷◌, Bytes, All,
  if◌then◌else◌, Bool-cases, inl, inr, leb, leb_iff,
}
use rateshield.Go.Time.{Time, Duration, after, add, is_zero, sub}
use rateshield.Go.Float.{Float64, IsFloat64, nought, seconds}
use rateshield.Memory.{Memory, MemEntry, find, put}
use rateshield.Memory.Shards.{find-put_self}
use rateshield.Memory.Window.{live}
use rateshield.Memory.Requests.{lets_through}
use rateshield.Memory.TokenBucket.{refill, bucket_entry, eval_token_bucket, allow_token_bucket}

-- A burst passes as long as its units fit into the capacity.
unfoldable pub promised : (capacity used : ℕ) → List ℕ → List Bool
promised capacity used [] = []
promised capacity used (n ∷ ns) =
    let b = leb (used + n) capacity in b ∷ promised capacity (if b then used + n else used) ns

module _ {F : Type 0} ⦃fl : Float64 F⦄ where
  -- What the store decides about requests of a key that all come at `t`.
  unfoldable pub decided :
      Bytes → (rate : F) → (capacity : ℕ) → Duration → Time → Memory F → List ℕ → List Bool
  decided key rate capacity ttl t m [] = []
  decided key rate capacity ttl t m (n ∷ ns) =
      let (res, m', clock') =
        allow_token_bucket none key rate (pos capacity) (pos n) ttl (λ _. t) m in
      lets_through res ∷ decided key rate capacity ttl t m' ns

  record EntryTracks (capacity used : ℕ) (ttl : Duration) (t : Time) (e : MemEntry F) : Type 0 where
    left : e.tokens ≡ fl.of_int (pos (capacity - used))
    updated : e.last_upd ≡ t
    expires : e.expires_at ≡ add t ttl

  abbrev Tracks : (capacity used : ℕ) → Duration → Time → Option (MemEntry F) → Type 0
  Tracks capacity used ttl t none = used ≡ 0
  Tracks capacity used ttl t (some e) = EntryTracks capacity used ttl t e

module _ {F : Type 0} ⦃fl : Float64 F⦄ (laws : IsFloat64 F) where
  open laws use {fle_exact, fsub_exact, fadd_zero, fdiv_zero, flt-eq-not-fle, of_int_mono}

  -- Whether the tokens that are left cover a request, and what it leaves of them.
  pub covers-leb :
      (capacity used n : ℕ)
      → capacity ≤ 9007199254740992
      → used ≤ capacity
      → n ≤ 9007199254740992
      → fl.fle (fl.of_int (pos n)) (fl.of_int (pos (capacity - used))) ≡ leb (used + n) capacity
  covers-leb capacity used n small le fits =
      fle_exact (pos n) (pos (capacity - used)) (omega arith) (omega arith) (omega arith)
        (omega arith)
      ∙ ground arith

  pub taken-minus :
      (capacity used n : ℕ)
      → capacity ≤ 9007199254740992
      → leb (used + n) capacity ≡ true
      → fl.fsub (fl.of_int (pos (capacity - used))) (fl.of_int (pos n))
        ≡ fl.of_int (pos (capacity - (used + n)))
  taken-minus capacity used n small room =
      fsub_exact (pos (capacity - used)) (pos n) (omega arith) (omega (arith, (leb_iff _ _).0 room))
        (omega arith)
      ∙ ap fl.of_int (eq_of_parts _ _ (omega (int_laws, (leb_iff _ _).0 room)))

  pub not_after_nought : fl.flt nought nought ≡ false
  not_after_nought =
      let number = of_int_mono (pos 0) (pos 0) (omega arith) in
      flt-eq-not-fle nought nought number number ∙ rw number

  sub_self : (t : Time) → sub t t ≡ pos 0
  unfolding sub
  sub_self t = let e : t -ℤ t ≡ pos 0 = eq_of_parts _ _ (omega int_laws) in rw e refl

  seconds_zero : ◌≡◌ {A = F} (seconds (pos 0)) nought
  unfolding quot ◌-ℤ◌ ◌*ℤ◌
  seconds_zero =
      ap (fl.fadd nought) (fdiv_zero (pos 1_000_000_000) (omega arith) (omega arith)) ∙ fadd_zero

  -- No time passes between two requests of a burst.
  no_time : (t : Time) → fl.flt nought (seconds (sub t t)) ≡ false
  no_time t = rw (sub_self t, seconds_zero) not_after_nought

  entry-left :
      (rate : F) (capacity used : ℕ) (ttl : Duration) (t : Time) (o : Option (MemEntry F))
      → pos 1 ≤ℤ t
      → pos 0 ≤ℤ ttl
      → Tracks capacity used ttl t o
      → let e = bucket_entry t rate (pos capacity) (live t o) in
        (e.tokens ≡ fl.of_int (pos (capacity - used))) × (e.last_upd ≡ t)
  unfolding bucket_entry live
  entry-left rate capacity used ttl t none set kept k =
      (rw k (ap (λ c. fl.of_int (pos c)) (omega arith)), refl)
  entry-left rate capacity used ttl t (some e) set kept k =
      let young : after t e.expires_at ≡ false = rw k.expires (ground (arith, +ℤ_parts t ttl)) in
      let known : is_zero e.last_upd ≡ false = rw k.updated (ground arith) in
      let still : fl.flt nought (seconds (sub t e.last_upd)) ≡ false = rw k.updated (no_time t) in
      rw young (rw known (rw (refill, still) (k.left, k.updated)))

  decided-promised :
      (key : Bytes) (rate : F) (capacity used : ℕ) (ttl : Duration) (t : Time) (m : Memory F)
      (ns : List ℕ)
      → pos 1 ≤ℤ t
      → pos 0 ≤ℤ ttl
      → capacity ≤ 9007199254740992
      → used ≤ capacity
      → All (λ n. n ≤ 9007199254740992) ns
      → Tracks capacity used ttl t (find key m)
      → decided key rate capacity ttl t m ns ≡ promised capacity used ns
  unfolding decided promised allow_token_bucket eval_token_bucket
  decided-promised key rate capacity used ttl t m [] set kept small le fits k = refl
  decided-promised key rate capacity used ttl t m (n ∷ ns) set kept small le fits k =
      let o = find key m in
      let start = bucket_entry t rate (pos capacity) (live t o) in
      let e = (eval_token_bucket rate (pos capacity) (pos n) ttl t o).1 in
      let (left, updated) = entry-left rate capacity used ttl t o set kept k in
      let test : fl.fle (fl.of_int (pos n)) start.tokens ≡ leb (used + n) capacity =
        rw left (covers-leb capacity used n small le fits.0) in
      elim (Bool-cases (leb (used + n) capacity)) [
        | inl room ↦
            let taken : fl.fsub start.tokens (fl.of_int (pos n))
                ≡ fl.of_int (pos (capacity - (used + n))) =
              rw left (taken-minus capacity used n small room) in
            let passes : fl.fle (fl.of_int (pos n)) start.tokens ≡ true = test ∙ room in
            let tracks : EntryTracks capacity (used + n) ttl t e =
              unfold eval_token_bucket in
              rw passes (record { left = taken; updated = updated; expires = refl }) in
            ap₂ ◌∷◌ test (
              rw room (
                decided-promised key rate capacity (used + n) ttl t (put key e m) ns set kept small
                  ((leb_iff _ _).0 room) fits.1 (rw (find-put_self key e m) tracks)))
        | inr full ↦
            let refused : fl.fle (fl.of_int (pos n)) start.tokens ≡ false = test ∙ full in
            let tracks : EntryTracks capacity used ttl t e =
              rw refused (record { left = left; updated = updated; expires = refl }) in
            ap₂ ◌∷◌ test (
              rw full (
                decided-promised key rate capacity used ttl t (put key e m) ns set kept small le
                  fits.1 (rw (find-put_self key e m) tracks)))
      ]

  -- By the laws of float64: for a key with no entry yet, a capacity up to 2^53, a TTL that is not
  -- negative and any rate, a burst of requests at one instant after Go's zero time, each for at
  -- most 2^53 units, is decided exactly as by a counter that starts at zero and lets a request
  -- through if and only if it stays within the capacity.
  pub token_bucket_burst_is_exact :
      (key : Bytes) (rate : F) (capacity : ℕ) (ttl : Duration) (t : Time) (m : Memory F)
      (ns : List ℕ)
      → pos 1 ≤ℤ t
      → pos 0 ≤ℤ ttl
      → capacity ≤ 9007199254740992
      → All (λ n. n ≤ 9007199254740992) ns
      → find key m ≡ none
      → decided key rate capacity ttl t m ns ≡ promised capacity 0 ns
  token_bucket_burst_is_exact key rate capacity ttl t m ns set kept small fits empty =
      decided-promised key rate capacity 0 ttl t m ns set kept small (omega arith) fits
        (rw empty refl)
