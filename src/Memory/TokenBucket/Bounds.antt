-- ===== src/Memory/TokenBucket/Bounds.antt =====
-- store/memory.go: AllowTokenBucket keeps the tokens between zero and the capacity, by the documented
-- facts of float64 arithmetic.
use rateshield.Prelude.{
  ℤ, pos, ◌≤ℤ◌, ◌≡◌, refl, arith, true, ◌&&◌, Option, none, some, if◌then◌else◌, Bool-cases, inl,
  inr, leb_ℤ, max_int64,
}
use rateshield.Go.Time.{Time, Duration, after, is_zero, sub}
use rateshield.Go.Float.{Float64, IsFloat64, ◌≼◌, nought, two53, seconds}
use rateshield.Memory.{MemEntry}
use rateshield.Memory.Window.{live, at_least_zero}
use rateshield.Memory.TokenBucket.{refill, bucket_entry, eval_token_bucket}

module _ {F : Type 0} ⦃fl : Float64 F⦄ where
  -- The tokens lie between zero and the capacity.
  pub record InBucket (capacity : ℤ) (e : MemEntry F) : Type 0 where
    pub low : nought ≼ e.tokens
    pub high : e.tokens ≼ fl.of_int capacity

  -- The entry of a key, if it has one, holds tokens in that range.
  abbrev pub Holds : ℤ → Option (MemEntry F) → Type 0
  Holds capacity none = Unit {0}
  Holds capacity (some e) = InBucket capacity e

module _ {F : Type 0} ⦃fl : Float64 F⦄ (laws : IsFloat64 F) where
  open laws use {
    of_int_mono, fle_trans, fle_number, flt-eq-not-fle, fsub_nonneg, fsub_le, fadd_grows, fmul_pos,
    to_int_nonneg, to_int_below, to_int_above,
  }

  -- A sum over the capacity is cut to it.
  capped :
      (capacity : ℤ) (sum : F)
      → pos 0 ≤ℤ capacity
      → nought ≼ sum
      → let x = if fl.flt (fl.of_int capacity) sum then fl.of_int capacity else sum in
        (nought ≼ x) × (x ≼ fl.of_int capacity)
  capped capacity sum nonneg low =
      let cap = fl.of_int capacity in
      let number : cap ≼ cap = of_int_mono capacity capacity (omega arith) in
      let zero_cap : nought ≼ cap = of_int_mono (pos 0) capacity nonneg in
      let order = flt-eq-not-fle cap sum number (fle_number nought sum low).1 in
      elim (Bool-cases (fl.flt cap sum)) [
        | inl over ↦ rw over (zero_cap, number)
        | inr under ↦ rw under (low, ground arith)
      ]

  refill-InBucket :
      (t : Time) (rate : F) (capacity : ℤ) (e : MemEntry F)
      → pos 0 ≤ℤ capacity
      → fl.flt nought rate ≡ true
      → InBucket capacity e
      → InBucket capacity (refill t rate capacity e)
  unfolding refill
  refill-InBucket t rate capacity e nonneg positive h =
      let elapsed = seconds (sub t e.last_upd) in
      elim (Bool-cases (fl.flt nought elapsed)) [
        | inl passed ↦
            let product : nought ≼ fl.fmul elapsed rate = fmul_pos elapsed rate passed positive in
            let grows = fadd_grows e.tokens (fl.fmul elapsed rate) h.low product in
            let (low, high) =
              capped capacity (fl.fadd e.tokens (fl.fmul elapsed rate)) nonneg
                (fle_trans _ _ _ product grows) in
            rw passed (record { low = low; high = high })
        | inr still ↦ rw still h
      ]

  entry-InBucket :
      (t : Time) (rate : F) (capacity : ℤ) (o : Option (MemEntry F))
      → pos 0 ≤ℤ capacity
      → fl.flt nought rate ≡ true
      → Holds capacity o
      → InBucket capacity (bucket_entry t rate capacity (live t o))
  unfolding bucket_entry live
  entry-InBucket t rate capacity none nonneg positive h = record {
    low = of_int_mono (pos 0) capacity nonneg;
    high = of_int_mono capacity capacity (omega arith);
  }
  entry-InBucket t rate capacity (some e) nonneg positive h =
      let fresh_low = of_int_mono (pos 0) capacity nonneg in
      let fresh_high = of_int_mono capacity capacity (omega arith) in
      let refilled = refill-InBucket t rate capacity e nonneg positive h in
      elim (Bool-cases (after t e.expires_at)) [
        | inl old ↦ rw old (record { low = fresh_low; high = fresh_high })
        | inr young ↦ rw young (elim (Bool-cases (is_zero e.last_upd)) [
          | inl unset ↦ rw unset (record { low = fresh_low; high = fresh_high })
          | inr updated ↦ rw updated refilled
        ])
      ]

  -- What is reported of tokens in the range.
  remaining-le :
      (capacity : ℤ) (x : F)
      → capacity ≤ℤ two53
      → nought ≼ x
      → x ≼ fl.of_int capacity
      → (pos 0 ≤ℤ at_least_zero (fl.to_int x)) × (at_least_zero (fl.to_int x) ≤ℤ capacity)
  remaining-le capacity x small low high =
      let below = to_int_below x capacity low high small in
      let above = to_int_nonneg x low (fle_trans _ _ _ high (of_int_mono capacity two53 small)) in
      ground arith

  -- A number of units that is covered by the tokens is at most the capacity.
  covered-le :
      (capacity n : ℤ) (x : F)
      → capacity ≤ℤ two53
      → n ≤ℤ two53
      → nought ≼ x
      → x ≼ fl.of_int capacity
      → fl.of_int n ≼ x
      → n ≤ℤ capacity
  covered-le capacity n x small n53 low high covered =
      let below = to_int_below x capacity low high small in
      let above =
        to_int_above x n n53 low (fle_trans _ _ _ high (of_int_mono capacity two53 small))
          covered in
      omega (arith, below, above)

  -- By the laws of float64: a request for `n` units, from none to 2^53, against a positive rate and
  -- a capacity from zero to 2^53, on a key whose tokens lie between zero and the capacity, leaves
  -- tokens that do, and reports a remainder between zero and the capacity; it passes only if `n` is
  -- at most the capacity, and takes its `n` tokens from those of the refilled entry if it passes
  -- and none if it is refused.
  pub token_bucket_stays_in_bounds :
      (rate : F) (capacity n : ℤ) (ttl : Duration) (t : Time) (o : Option (MemEntry F))
      → fl.flt nought rate ≡ true
      → pos 0 ≤ℤ capacity
      → capacity ≤ℤ two53
      → pos 0 ≤ℤ n
      → n ≤ℤ two53
      → Holds capacity o
      → let (res, e) = eval_token_bucket rate capacity n ttl t o in
        let tokens = (bucket_entry t rate capacity (live t o)).tokens in
        InBucket capacity e
        × (pos 0 ≤ℤ res.remaining)
        × (res.remaining ≤ℤ capacity)
        × (res.allowed ≡ (leb_ℤ n capacity && res.allowed))
        × (e.tokens ≡ (if res.allowed then fl.fsub tokens (fl.of_int n) else tokens))
  unfolding eval_token_bucket
  token_bucket_stays_in_bounds rate capacity n ttl t o positive nonneg small n0 n53 h =
      let tokens = (bucket_entry t rate capacity (live t o)).tokens in
      let start = entry-InBucket t rate capacity o nonneg positive h in
      let fits : capacity ≤ℤ max_int64 = omega arith in
      elim (Bool-cases (fl.fle (fl.of_int n) tokens)) [
        | inl covered ↦
            let units : nought ≼ fl.of_int n = of_int_mono (pos 0) n n0 in
            let low = fsub_nonneg tokens (fl.of_int n) capacity fits units covered start.high in
            let high =
              fle_trans _ _ _ (fsub_le tokens (fl.of_int n) capacity fits units covered start.high)
                start.high in
            let (r0, r1) = remaining-le capacity (fl.fsub tokens (fl.of_int n)) small low high in
            let n_le = covered-le capacity n tokens small n53 start.low start.high covered in
            rw covered (record { low = low; high = high }, r0, r1, ground (arith, n_le), refl)
        | inr short ↦
            let (r0, r1) = remaining-le capacity tokens small start.low start.high in
            rw short (record { low = start.low; high = start.high }, r0, r1, ground arith, refl)
      ]
