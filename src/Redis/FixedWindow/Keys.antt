-- ===== src/Redis/FixedWindow/Keys.antt =====
-- store/redis.go: the counters of different windows have different keys.
use rateshield.Prelude.{
  ℤ, InInt64, ◌≡◌, ◌≢◌, sym, ap, ◌∙◌, false, Bytes, ◌++◌, length, drop, bytes_eq, bytes_eq-eq,
  Bool-cases, inl, inr,
}
use rateshield.Go.Text.{drop-length}
use rateshield.Go.Text.Decimal.{format_int, read_int, read_int-format_int}
use rateshield.Redis.Scripts.{window_key}

same_end : (s t t' : Bytes) → s ++ t ≡ s ++ t' → t ≡ t'
same_end s t t' e = sym (drop-length s t) ∙ ap (drop (length s)) e ∙ drop-length s t'

window_key-num :
    (key mark : Bytes) (i j : ℤ)
    → InInt64 i
    → InInt64 j
    → window_key key mark i ≡ window_key key mark j
    → i ≡ j
window_key-num key mark i j hi hj e =
    let numbers : format_int i ≡ format_int j =
      same_end (key ++ mark) (format_int i) (format_int j) e in
    sym (read_int-format_int i hi) ∙ ap read_int numbers ∙ read_int-format_int j hj

pub window_keys_differ :
    (key mark : Bytes) (i j : ℤ)
    → InInt64 i
    → InInt64 j
    → i ≢ j
    → bytes_eq (window_key key mark i) (window_key key mark j) ≡ false
window_keys_differ key mark i j hi hj ne =
    let k = window_key key mark i in
    let k' = window_key key mark j in
    elim (Bool-cases (bytes_eq k k')) [
      | inl same ↦ absurd (ne (window_key-num key mark i j hi hj (bytes_eq-eq k k' same)))
      | inr other ↦ other
    ]
