-- ===== src/Redis/SlidingLog/Members.antt =====
-- store/redis.go: the members that swlScript gives to the log of a key, and their scores.
use rateshield.Prelude.{
  ℕ, zero, suc, ◌+◌, ◌≤◌, ◌<◌, ◌≡◌, refl, sym, ap, ◌∙◌, arith, ℤ, pos, pos_part, ◌≤ℤ◌, leb_ℤ, false,
  none, some, List, [], ◌∷◌, ◌++◌, Bytes, bytes_eq, bytes_eq-eq, if◌then◌else◌, length, drop, All,
  Bool-cases, inl, inr, ltb, ◌/◌, ◌%◌,
}
use mathlib.Core.List.{append_assoc}
use rateshield.Go.Text.{bytes, index, last_index, last_index-append, drop-length}
use rateshield.Go.Text.Decimal.{digits, format_int, read_int, read_int-format_int}
use rateshield.Redis.Commands.{scored_above, has_member}
use rateshield.Redis.FixedWindow.Step.{in_range}
use rateshield.Redis.Scripts.Log.{member}

-- The digits of a number hold no dash.
index-digits : (fuel n : ℕ) (s : Bytes) → index b'-' s ≡ none → index b'-' (digits fuel n s) ≡ none
unfolding index digits
index-digits zero n s h = h
index-digits (suc fuel) n s h = elim (Bool-cases (ltb n 10)) [
  | inl small ↦ rw small (ground (arith, h))
  | inr large ↦ rw large (index-digits fuel (n / 10) ((b'0' + n % 10) ∷ s) (ground (arith, h)))
]

index-format_int : (n : ℕ) → index b'-' (format_int (pos n)) ≡ none
unfolding format_int
index-format_int n = index-digits 19 n [] (unfold index in refl)

-- Texts that end with a dash and a part without one have the same last part if they are equal.
last_part :
    (s s' t t' : Bytes)
    → index b'-' t ≡ none
    → index b'-' t' ≡ none
    → (s ++ bytes "-") ++ t ≡ (s' ++ bytes "-") ++ t'
    → t ≡ t'
last_part s s' t t' h h' e =
    let e' : s ++ b'-' ∷ t ≡ s' ++ b'-' ∷ t' =
      sym (append_assoc s (bytes "-") t) ∙ e ∙ append_assoc s' (bytes "-") t' in
    let same_place : some (length s) ≡ some (length s') =
      sym (last_index-append b'-' s t h)
      ∙ ap (last_index b'-') e'
      ∙ last_index-append b'-' s' t' h' in
    let n : length s ≡ length s' = cc in
    let tail : b'-' ∷ t ≡ b'-' ∷ t' =
      sym (drop-length s (b'-' ∷ t))
      ∙ ap (drop (length s)) e'
      ∙ rw n (drop-length s' (b'-' ∷ t')) in
    cc

-- The member tells its sequence number.
member-seq :
    (now now' : ℤ) (i i' n n' : ℕ)
    → n ≤ 9223372036854775807
    → n' ≤ 9223372036854775807
    → member now i (pos n) ≡ member now' i' (pos n')
    → n ≡ n'
member-seq now now' i i' n n' h h' e =
    let digits_same =
      last_part (format_int now ++ bytes "-" ++ format_int (pos i))
        (format_int now' ++ bytes "-" ++ format_int (pos i')) (format_int (pos n))
        (format_int (pos n')) (index-format_int n) (index-format_int n') e in
    ap pos_part (
      sym (read_int-format_int (pos n) (in_range n h))
      ∙ ap read_int digits_same
      ∙ read_int-format_int (pos n') (in_range n' h'))

-- The members of a log whose sequence numbers go from 1 to `n`.
abbrev pub IsNumbered : (n : ℕ) → Bytes × ℤ → Type 0
IsNumbered n (m, score) =
    (now : ℤ) × (i : ℕ) × (seq : ℕ) × (1 ≤ seq) × (seq ≤ n) × (m ≡ member now i (pos seq))

abbrev pub AreNumbered : (n : ℕ) → List (Bytes × ℤ) → Type 0
AreNumbered n = All (IsNumbered n)

pub AreNumbered-le :
    (n n' : ℕ) (ms : List (Bytes × ℤ)) → n ≤ n' → AreNumbered n ms → AreNumbered n' ms
AreNumbered-le n n' [] le h = tt
AreNumbered-le n n' ((m, score) ∷ ms) le ((now, i, seq, one, h, e), hs) =
    ((now, i, seq, one, omega arith, e), AreNumbered-le n n' ms le hs)

-- The next member is a new one.
pub has_member-next :
    (now : ℤ) (i n : ℕ) (ms : List (Bytes × ℤ))
    → n < 9223372036854775807
    → AreNumbered n ms
    → has_member (member now i (pos (suc n))) ms ≡ false
has_member-next now i n [] lt h = refl
has_member-next now i n ((m, score) ∷ ms) lt ((now', i', seq, one, le, e), hs) =
    let next = member now i (pos (suc n)) in
    elim (Bool-cases (bytes_eq next m)) [
      | inl same ↦ absurd (
          let e' = bytes_eq-eq next m same ∙ e in
          omega (arith, member-seq now now' i i' (suc n) seq (omega arith) (omega arith) e'))
      | inr other ↦ rw other (has_member-next now i n ms lt hs)
    ]

pub scored_above-AreNumbered :
    (x : ℤ) (n : ℕ) (ms : List (Bytes × ℤ)) → AreNumbered n ms → AreNumbered n (scored_above x ms)
scored_above-AreNumbered x n [] h = tt
scored_above-AreNumbered x n ((m, score) ∷ ms) (h, hs) =
    let rest = scored_above-AreNumbered x n ms hs in
    elim (Bool-cases (leb_ℤ score x)) [ inl low ↦ rw low rest | inr high ↦ rw high (h, rest) ]

pub AreNumbered-insert :
    (n : ℕ) (m : Bytes × ℤ) (below above : List (Bytes × ℤ))
    → IsNumbered n m
    → AreNumbered n (below ++ above)
    → AreNumbered n (below ++ m ∷ above)
AreNumbered-insert n m [] above h hs = (h, hs)
AreNumbered-insert n m (m' ∷ below) above h (h', hs) = (h', AreNumbered-insert n m below above h hs)

-- The members above a score that stands under another one.
pub scored_above-scored_above :
    (x y : ℤ) (ms : List (Bytes × ℤ))
    → x ≤ℤ y
    → scored_above y (scored_above x ms) ≡ scored_above y ms
scored_above-scored_above x y [] le = refl
scored_above-scored_above x y ((m, score) ∷ ms) le =
    ground (arith, scored_above-scored_above x y ms le)

pub length-scored_above-insert :
    (x : ℤ) (m : Bytes) (score : ℤ) (below above : List (Bytes × ℤ))
    → length (scored_above x (below ++ (m, score) ∷ above))
      ≡ length (scored_above x (below ++ above)) + (if leb_ℤ score x then 0 else 1)
length-scored_above-insert x m score [] above = ground arith
length-scored_above-insert x m score ((m', score') ∷ below) above =
    ground (arith, length-scored_above-insert x m score below above)
