-- ===== src/Go/Float.antt =====
-- float64: the operations that the program uses, as an interface, since the development has no
-- floating-point numbers; the documented facts of IEEE 754 arithmetic that the theorems use; and
-- exact integers, which meet them.
use rateshield.Prelude.{
  ℕ, zero, suc, ◌≤◌, ◌/◌, ap, ◌≡◌, refl, Bool, true, not, ℤ, pos, negsuc, ◌+ℤ◌, ◌-ℤ◌, ◌*ℤ◌, quot,
  ◌≤ℤ◌, ltb_ℤ, leb_ℤ, arith, ◌⊎◌, inl, inr, Bool-cases, max_int64,
}
use rateshield.Go.Time.{Duration}

pub record Float64 (F : Type 0) : Type 0 where
  -- float64(k) and int64(x)
  pub of_int : ℤ → F
  pub to_int : F → ℤ
  -- math.floor and math.ceil of Lua, whose numbers are float64
  pub floor_of : F → ℤ
  pub ceil_of : F → ℤ
  pub fadd : F → F → F
  pub fsub : F → F → F
  pub fmul : F → F → F
  pub fdiv : F → F → F
  -- x < y and x <= y; both are false if one of them is NaN
  pub flt : F → F → Bool
  pub fle : F → F → Bool

module _ {F : Type 0} ⦃fl : Float64 F⦄ where
  -- d.Seconds()
  abbrev pub seconds : Duration → F
  seconds d = fl.fadd (fl.of_int (quot d (pos 1_000_000_000))) (
      fl.fdiv (fl.of_int (d -ℤ quot d (pos 1_000_000_000) *ℤ pos 1_000_000_000))
        (fl.of_int (pos 1_000_000_000)))

  -- Numbers in order; a NaN is in order with nothing.
  infix 4 ◌≼◌
  abbrev pub ◌≼◌ : F → F → Type 0
  x ≼ y = fl.fle x y ≡ true

  -- 0 as a float64
  abbrev pub nought : F
  nought = fl.of_int (pos 0)

-- The integers up to this bound are float64 numbers.
abbrev pub two53 : ℤ
two53 = pos 9007199254740992

-- What IEEE 754 documents of the operations, where no operand is NaN: the order is total, rounding
-- keeps it, integers up to 2^53 are exact, and a conversion to int64 drops the fraction.
pub record IsFloat64 (F : Type 0) ⦃fl : Float64 F⦄ : Type 0 where
  pub of_int_mono : (a b : ℤ) → a ≤ℤ b → fl.of_int a ≼ fl.of_int b
  pub fle_trans : (x y z : F) → x ≼ y → y ≼ z → x ≼ z
  pub fle_total : (x y : F) → x ≼ x → y ≼ y → (x ≼ y) ⊎ (y ≼ x)
  pub fle_number : (x y : F) → x ≼ y → (x ≼ x) × (y ≼ y)
  pub flt-eq-not-fle : (x y : F) → x ≼ x → y ≼ y → fl.flt x y ≡ not (fl.fle y x)
  pub fsub_nonneg :
      (x y : F) (c : ℤ)
      → c ≤ℤ max_int64
      → nought ≼ y
      → y ≼ x
      → x ≼ fl.of_int c
      → nought ≼ fl.fsub x y
  pub fsub_le :
      (x y : F) (c : ℤ) → c ≤ℤ max_int64 → nought ≼ y → y ≼ x → x ≼ fl.of_int c → fl.fsub x y ≼ x
  pub fadd_grows : (x y : F) → nought ≼ x → nought ≼ y → y ≼ fl.fadd x y
  pub fmul_nonneg :
      (x y : F) (a b : ℤ)
      → a ≤ℤ max_int64
      → b ≤ℤ max_int64
      → nought ≼ x
      → x ≼ fl.of_int a
      → nought ≼ y
      → y ≼ fl.of_int b
      → nought ≼ fl.fmul x y
  pub fmul_pos : (x y : F) → fl.flt nought x ≡ true → fl.flt nought y ≡ true → nought ≼ fl.fmul x y
  pub fmul_le :
      (x y : F) (a : ℤ)
      → a ≤ℤ max_int64
      → nought ≼ x
      → x ≼ fl.of_int a
      → nought ≼ y
      → y ≼ fl.of_int (pos 1)
      → fl.fmul x y ≼ x
  pub fadd_le :
      (x y : F) (a b : ℤ)
      → pos 0 ≤ℤ a
      → pos 0 ≤ℤ b
      → a +ℤ b ≤ℤ two53
      → nought ≼ x
      → x ≼ fl.of_int a
      → nought ≼ y
      → y ≼ fl.of_int b
      → fl.fadd x y ≼ fl.of_int (a +ℤ b)
  pub fdiv_nonneg :
      (x y : F) (a : ℤ)
      → a ≤ℤ max_int64
      → nought ≼ x
      → x ≼ fl.of_int a
      → fl.flt nought y ≡ true
      → nought ≼ fl.fdiv x y
  pub fdiv_le_one :
      (a b : ℤ)
      → pos 0 ≤ℤ a
      → a ≤ℤ b
      → pos 1 ≤ℤ b
      → b ≤ℤ two53
      → fl.fdiv (fl.of_int a) (fl.of_int b) ≼ fl.of_int (pos 1)
  -- integers up to 2^53
  pub fle_exact :
      (a b : ℤ)
      → pos 0 ≤ℤ a
      → a ≤ℤ two53
      → pos 0 ≤ℤ b
      → b ≤ℤ two53
      → fl.fle (fl.of_int a) (fl.of_int b) ≡ leb_ℤ a b
  pub fsub_exact :
      (a b : ℤ)
      → pos 0 ≤ℤ b
      → b ≤ℤ a
      → a ≤ℤ two53
      → fl.fsub (fl.of_int a) (fl.of_int b) ≡ fl.of_int (a -ℤ b)
  pub fadd_zero : fl.fadd nought nought ≡ nought
  pub fdiv_zero : (b : ℤ) → pos 1 ≤ℤ b → b ≤ℤ two53 → fl.fdiv nought (fl.of_int b) ≡ nought
  -- int64(x) is the whole number below `x`, for `x` from 0 to 2^53
  pub floor_of-to_int : (x : F) → nought ≼ x → x ≼ fl.of_int two53 → fl.floor_of x ≡ fl.to_int x
  pub to_int_nonneg : (x : F) → nought ≼ x → x ≼ fl.of_int two53 → pos 0 ≤ℤ fl.to_int x
  pub to_int_above :
      (x : F) (k : ℤ)
      → k ≤ℤ two53
      → nought ≼ x
      → x ≼ fl.of_int two53
      → fl.of_int k ≼ x
      → k ≤ℤ fl.to_int x
  pub to_int_below : (x : F) (k : ℤ) → nought ≼ x → x ≼ fl.of_int k → k ≤ℤ two53 → fl.to_int x ≤ℤ k

-- Exact integers in place of float64.
instance abbrev pub int_float : Float64 ℤ
int_float = record {
  of_int = λ k. k;
  to_int = λ x. x;
  floor_of = λ x. x;
  ceil_of = λ x. x;
  fadd = ◌+ℤ◌;
  fsub = ◌-ℤ◌;
  fmul = ◌*ℤ◌;
  fdiv = quot;
  flt = ltb_ℤ;
  fle = leb_ℤ;
}

total : (x y : ℤ) → (leb_ℤ x y ≡ true) ⊎ (leb_ℤ y x ≡ true)
total x y = elim (Bool-cases (leb_ℤ x y)) [ inl p ↦ inl p | inr p ↦ inr (ground arith) ]

*ℤ_nonneg :
    (x y : ℤ) → leb_ℤ (pos 0) x ≡ true → leb_ℤ (pos 0) y ≡ true → leb_ℤ (pos 0) (x *ℤ y) ≡ true
unfolding ◌*ℤ◌
*ℤ_nonneg (pos a) (pos b) h k = ground arith
*ℤ_nonneg (pos a) (negsuc b) h k = ground arith
*ℤ_nonneg (negsuc a) y h k = ground arith

quot_nonneg :
    (x y : ℤ) → leb_ℤ (pos 0) x ≡ true → ltb_ℤ (pos 0) y ≡ true → leb_ℤ (pos 0) (quot x y) ≡ true
unfolding quot
quot_nonneg (pos a) (pos b) h k = ground arith
quot_nonneg (pos a) (negsuc b) h k = ground arith
quot_nonneg (negsuc a) (pos b) h k = ground arith
quot_nonneg (negsuc a) (negsuc b) h k = ground arith

*ℤ_le :
    (x y : ℤ)
    → leb_ℤ (pos 0) x ≡ true
    → leb_ℤ (pos 0) y ≡ true
    → leb_ℤ y (pos 1) ≡ true
    → leb_ℤ (x *ℤ y) x ≡ true
unfolding ◌*ℤ◌
*ℤ_le (pos a) (pos zero) h k l = ground arith
*ℤ_le (pos a) (pos (suc zero)) h k l = ground arith
*ℤ_le (pos a) (pos (suc (suc b))) h k l = ground arith
*ℤ_le (pos a) (negsuc b) h k l = ground arith
*ℤ_le (negsuc a) y h k l = ground arith

quot_le_one : (a b : ℤ) → pos 0 ≤ℤ a → a ≤ℤ b → pos 1 ≤ℤ b → leb_ℤ (quot a b) (pos 1) ≡ true
unfolding quot
quot_le_one (pos a) (pos b) h k l = grind (arith, div_le_one a b)
  where
    div_le_one : (a b : ℕ) → a ≤ b → 1 ≤ b → a / b ≤ 1
    div_le_one a b k l = grind arith
quot_le_one (pos a) (negsuc b) h k l = ground arith
quot_le_one (negsuc a) b h k l = ground arith

quot_zero : (b : ℤ) → pos 1 ≤ℤ b → quot (pos 0) b ≡ pos 0
unfolding quot
quot_zero (pos b) h = ap pos (zero_div b)
  where
    zero_div : (b : ℕ) → 0 / b ≡ 0
    zero_div b = omega arith
quot_zero (negsuc b) h = ground arith

-- Exact integers meet the laws.
pub ℤ-IsFloat64 : IsFloat64 ℤ
unfolding ◌+ℤ◌ ◌-ℤ◌ ◌*ℤ◌ quot
ℤ-IsFloat64 = record {
  of_int_mono = λ a b h. ground arith;
  fle_trans = λ x y z h k. ground arith;
  fle_total = λ x y h k. total x y;
  fle_number = λ x y h. (ground arith, ground arith);
  flt-eq-not-fle = λ x y h k. ground arith;
  fsub_nonneg = λ x y c p h k l. ground arith;
  fsub_le = λ x y c p h k l. ground arith;
  fadd_grows = λ x y h k. ground arith;
  fmul_nonneg = λ x y a b p q h k l m. *ℤ_nonneg x y h l;
  fmul_pos = λ x y h k. *ℤ_nonneg x y (ground arith) (ground arith);
  fmul_le = λ x y a p h k l m. *ℤ_le x y h l m;
  fadd_le = λ x y a b p q r h k l m. ground arith;
  fdiv_nonneg = λ x y a p h k l. quot_nonneg x y h l;
  fdiv_le_one = λ a b h k l m. quot_le_one a b h k l;
  fle_exact = λ a b h k l m. refl;
  fsub_exact = λ a b h k l. refl;
  fadd_zero = refl;
  fdiv_zero = λ b h k. quot_zero b h;
  floor_of-to_int = λ x h k. refl;
  to_int_nonneg = λ x h k. ground arith;
  to_int_above = λ x k p h l m. ground arith;
  to_int_below = λ x k h l m. ground arith;
}
