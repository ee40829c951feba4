-- ===== src/Go/Text.antt =====
-- Strings as their bytes: a literal, strings.Index for one byte, and strings.TrimSpace.
use Prim.Native.Char.{code}
use Prim.Native.String.{String}
use mathlib.Core.List.{reverse}
use rateshield.Prelude.{
  ℕ, zero, suc, ◌+◌, ◌≡◌, refl, ap, arith, Option, none, some, List, [], ◌∷◌, ◌++◌, map, Bytes,
  ◌==◌, if◌then◌else◌, length, drop,
}
pub mod Decimal

-- The bytes of an ASCII literal.
abbrev pub bytes : String → Bytes
bytes String.[] = []
bytes (String.◌∷◌ c s) = code c ∷ bytes s

abbrev next_index : Option ℕ → Option ℕ
next_index none = none
next_index (some i) = some (suc i)

-- The first place of a byte; `none` stands for -1.
unfoldable pub index : ℕ → Bytes → Option ℕ
index c [] = none
index c (x ∷ s) = let rest = index c s in if x == c then some 0 else next_index rest

-- The last place of a byte.
unfoldable pub last_index : ℕ → Bytes → Option ℕ
last_index c [] = none
last_index c (x ∷ s) = elim (last_index c s) [
  | some i ↦ some (suc i)
  | none ↦ if x == c then some 0 else none
]

-- s[:n]
abbrev pub take : ℕ → Bytes → Bytes
take zero s = []
take (suc n) [] = []
take (suc n) (c ∷ s) = c ∷ take n s

-- The UTF-8 bytes of the characters for which unicode.IsSpace holds.
abbrev pub spaces : List Bytes
spaces =
    (9 ∷ [])
    ∷ (10 ∷ [])
    ∷ (11 ∷ [])
    ∷ (12 ∷ [])
    ∷ (13 ∷ [])
    ∷ (32 ∷ [])
    ∷ (0xC2 ∷ 0x85 ∷ [])
    ∷ (0xC2 ∷ 0xA0 ∷ [])
    ∷ (0xE1 ∷ 0x9A ∷ 0x80 ∷ [])
    ∷ (0xE2 ∷ 0x80 ∷ 0x80 ∷ [])
    ∷ (0xE2 ∷ 0x80 ∷ 0x81 ∷ [])
    ∷ (0xE2 ∷ 0x80 ∷ 0x82 ∷ [])
    ∷ (0xE2 ∷ 0x80 ∷ 0x83 ∷ [])
    ∷ (0xE2 ∷ 0x80 ∷ 0x84 ∷ [])
    ∷ (0xE2 ∷ 0x80 ∷ 0x85 ∷ [])
    ∷ (0xE2 ∷ 0x80 ∷ 0x86 ∷ [])
    ∷ (0xE2 ∷ 0x80 ∷ 0x87 ∷ [])
    ∷ (0xE2 ∷ 0x80 ∷ 0x88 ∷ [])
    ∷ (0xE2 ∷ 0x80 ∷ 0x89 ∷ [])
    ∷ (0xE2 ∷ 0x80 ∷ 0x8A ∷ [])
    ∷ (0xE2 ∷ 0x80 ∷ 0xA8 ∷ [])
    ∷ (0xE2 ∷ 0x80 ∷ 0xA9 ∷ [])
    ∷ (0xE2 ∷ 0x80 ∷ 0xAF ∷ [])
    ∷ (0xE2 ∷ 0x81 ∷ 0x9F ∷ [])
    ∷ (0xE3 ∷ 0x80 ∷ 0x80 ∷ [])
    ∷ []

-- What follows a prefix.
unfoldable pub strip : (prefix s : Bytes) → Option Bytes
strip [] s = some s
strip (p ∷ ps) [] = none
strip (p ∷ ps) (c ∷ s) = if p == c then strip ps s else none

-- What follows the first of some prefixes that fits.
unfoldable pub strip_any : List Bytes → Bytes → Option Bytes
unfolding strip
strip_any [] s = none
strip_any (p ∷ ps) s = elim (strip p s) [ some r ↦ some r | none ↦ strip_any ps s ]

-- Drops prefixes as long as one fits; a string has no more characters than bytes.
unfoldable pub trim_with : (fuel : ℕ) → List Bytes → Bytes → Bytes
unfolding strip_any
trim_with zero table s = s
trim_with (suc fuel) table s = elim (strip_any table s) [
  | some r ↦ trim_with fuel table r
  | none ↦ s
]

-- strings.TrimSpace
unfoldable pub trim_space : Bytes → Bytes
unfolding trim_with
trim_space s =
    let left = trim_with (length s) spaces s in
    reverse (trim_with (length left) (map reverse spaces) (reverse left))

pub take-length : (s t : Bytes) → take (length s) (s ++ t) ≡ s
take-length [] t = refl
take-length (c ∷ s) t = ap (◌∷◌ c) (take-length s t)

pub drop-length : (s t : Bytes) → drop (length s) (s ++ t) ≡ t
drop-length [] t = refl
drop-length (c ∷ s) t = drop-length s t

pub index-none-append :
    (c : ℕ) (s t : Bytes) → index c s ≡ none → index c t ≡ none → index c (s ++ t) ≡ none
unfolding index
index-none-append c [] t hs ht = ht
index-none-append c (x ∷ s) t hs ht = ground (arith, index-none-append c s t)

-- A byte stands first where nothing before it is one, and last where nothing after it is.
pub index-append : (c : ℕ) (s t : Bytes) → index c s ≡ none → index c (s ++ c ∷ t) ≡ some (length s)
unfolding index
index-append c [] t h = ground arith
index-append c (x ∷ s) t h = ground (arith, index-append c s t)

pub last_index-none : (c : ℕ) (t : Bytes) → index c t ≡ none → last_index c t ≡ none
unfolding index last_index
last_index-none c [] h = refl
last_index-none c (x ∷ t) h = ground (arith, last_index-none c t)

pub last_index-append :
    (c : ℕ) (s t : Bytes) → index c t ≡ none → last_index c (s ++ c ∷ t) ≡ some (length s)
unfolding last_index
last_index-append c [] t h = ground (arith, last_index-none c t)
last_index-append c (x ∷ s) t h = ground (arith, last_index-append c s t)
