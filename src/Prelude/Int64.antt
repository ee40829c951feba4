-- ===== src/Prelude/Int64.antt =====
-- The wrap-around of Go's int64, and where it does nothing.
use Prim.Native.Nat.{ℕ, ◌+◌, ◌-◌, ◌%◌, ◌≤◌}
use mathlib.Core.Path.{◌≡◌}
use native.Mathlib.Omega.{arith}
use rateshield.Prelude.Tests.{ltb, if◌then◌else◌}
use rateshield.Prelude.Int.{ℤ, pos, negsuc, ◌≤ℤ◌, ◌<ℤ◌, ◌+ℤ◌, int_laws, plus_pos}

abbrev pub two63 : ℕ
two63 = 9223372036854775808

abbrev pub two64 : ℕ
two64 = 18446744073709551616

abbrev pub max_int64 : ℤ
max_int64 = pos 9223372036854775807

abbrev pub min_int64 : ℤ
min_int64 = negsuc 9223372036854775807

-- What an int64 variable holds after a result `a` is stored in it.
unfoldable pub int64 : ℤ → ℤ
int64 (pos n) = let r = n % two64 in if ltb r two63 then pos r else negsuc (two64 - r - 1)
int64 (negsuc n) = let r = n % two64 in if ltb r two63 then negsuc r else pos (two64 - r - 1)

pub record InInt64 (a : ℤ) : Type 0 where
  pub above : min_int64 ≤ℤ a
  pub below : a ≤ℤ max_int64

-- A value in range is stored as it is.
pub int64-id : (a : ℤ) → InInt64 a → int64 a ≡ a
unfolding int64
int64-id (pos n) h = ground arith
int64-id (negsuc n) h = ground arith

-- Whatever is stored is in range.
pub int64-InInt64 : (a : ℤ) → InInt64 (int64 a)
unfolding int64
int64-InInt64 (pos n) = ground arith
int64-InInt64 (negsuc n) = ground arith

-- A result past the top of the range, by less than 2^64 - 2^63, comes out negative.
pub int64_wraps : (a : ℤ) → max_int64 <ℤ a → a <ℤ pos two64 → int64 a <ℤ pos 0
unfolding int64
int64_wraps (pos n) h k = ground arith
int64_wraps (negsuc n) h k = ground arith

-- A counter below a bound that an int64 holds is counted up with no wrap.
pub int64-suc : (c t : ℤ) → pos 0 ≤ℤ c → c <ℤ t → InInt64 t → int64 (c +ℤ pos 1) ≡ c +ℤ pos 1
int64-suc c t low high fits =
    int64-id (c +ℤ pos 1)
      (record { above = omega (int_laws, fits.below); below = omega (int_laws, fits.below) })

-- The sum of two natural numbers that int64 variables hold.
pub sum_fits :
    (limit u n : ℕ)
    → u ≤ limit
    → limit + n ≤ 9223372036854775807
    → int64 (pos u +ℤ pos n) ≡ pos (u + n)
sum_fits limit u n bounded fits =
    rw (plus_pos u n) (int64-id (pos (u + n)) (record { above = omega arith; below = omega arith }))
