-- ===== src/Go/Text/Decimal.antt =====
-- strconv.FormatInt in base 10.
use rateshield.Prelude.{
  ℕ, zero, suc, ◌+◌, ◌-◌, ◌*◌, ◌/◌, ◌%◌, ◌<◌, ◌≡◌, refl, arith, ℤ, pos, negsuc, [], ◌∷◌, Bytes, ltb,
  ◌==◌, ap, ◌∙◌, InInt64, if◌then◌else◌, Bool-cases, inl, inr,
}

-- The digits of `n` before the digits `s`; `fuel` is the largest number of digits.
unfoldable pub digits : (fuel n : ℕ) → Bytes → Bytes
digits zero n s = s
digits (suc fuel) n s =
    let rest = digits fuel (n / 10) ((b'0' + n % 10) ∷ s) in
    if ltb n 10 then (b'0' + n) ∷ s else rest

-- An int64 has at most 19 digits.
unfoldable pub format_int : ℤ → Bytes
unfolding digits
format_int (pos n) = digits 19 n []
format_int (negsuc n) = b'-' ∷ digits 19 (suc n) []

-- The number that a sequence of digits stands for, after the digits of `acc`.
unfoldable pub value_of : (acc : ℕ) → Bytes → ℕ
value_of acc [] = acc
value_of acc (d ∷ s) = value_of (acc * 10 + (d - b'0')) s

-- What a decimal number stands for.
unfoldable pub read_int : Bytes → ℤ
unfolding value_of
read_int [] = pos 0
read_int (c ∷ s) = if c == b'-' then minus (value_of 0 s) else pos (value_of 0 (c ∷ s))
  where
    minus : ℕ → ℤ
    minus zero = pos 0
    minus (suc n) = negsuc n

abbrev power_of_ten : ℕ → ℕ
power_of_ten zero = 1
power_of_ten (suc k) = 10 * power_of_ten k

value_of-digits :
    (fuel n : ℕ) (s : Bytes) → n < power_of_ten fuel → value_of 0 (digits fuel n s) ≡ value_of n s
unfolding digits value_of
value_of-digits zero n s h = ap (λ k. value_of k s) (omega arith)
value_of-digits (suc fuel) n s h = elim (Bool-cases (ltb n 10)) [
  | inl small ↦ rw small (ap (λ k. value_of k s) (omega arith))
  | inr large ↦ rw large (
      value_of-digits fuel (n / 10) ((b'0' + n % 10) ∷ s) (omega arith)
      ∙ ap (λ k. value_of k s) (omega arith))
]

-- A digit is not the sign.
read_int-digits :
    (fuel n : ℕ) (s : Bytes)
    → read_int s ≡ pos (value_of 0 s)
    → read_int (digits fuel n s) ≡ pos (value_of 0 (digits fuel n s))
unfolding digits read_int
read_int-digits zero n s h = h
read_int-digits (suc fuel) n s h = elim (Bool-cases (ltb n 10)) [
  | inl small ↦ rw small (ground arith)
  | inr large ↦ rw large (read_int-digits fuel (n / 10) ((b'0' + n % 10) ∷ s) (ground arith))
]

-- An int64 is read back from its decimal digits.
pub read_int-format_int : (a : ℤ) → InInt64 a → read_int (format_int a) ≡ a
unfolding format_int read_int
read_int-format_int (pos n) h =
    read_int-digits 19 n [] refl ∙ ap pos (value_of-digits 19 n [] (omega arith))
read_int-format_int (negsuc n) h = rw (value_of-digits 19 (suc n) [] (omega arith)) refl
