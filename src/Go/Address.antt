-- ===== src/Go/Address.antt =====
-- net.SplitHostPort, and the addresses that it takes apart.
use rateshield.Prelude.{
  ℕ, suc, ◌≡◌, refl, arith, Bool, true, false, Option, none, some, [], ◌∷◌, ◌++◌, Bytes, ◌==◌,
  if◌then◌else◌, length, drop, Option-cases, inl, inr,
}
use rateshield.Go.Text.{
  index, last_index, take, take-length, index-append, last_index-append, last_index-none,
  index-none-append,
}

abbrev found : Option ℕ → Bool
found none = false
found (some i) = true

-- Whether a byte stands in a string.
abbrev pub has : ℕ → Bytes → Bool
has c s = found (index c s)

-- The last tests: no bracket stands where none may.
abbrev unless_bracket : (host open_part close_part : Bytes) → Option Bytes
unless_bracket host open_part close_part =
    if has b'[' open_part then none else if has b']' close_part then none else some host

-- An address that does not begin with a bracket, with its last colon at `i`.
split_plain : Bytes → ℕ → Option Bytes
split_plain s i = let host = take i s in if has b':' host then none else unless_bracket host s s

-- An address that begins with a bracket: the first closing one must stand just before the last colon.
split_bracketed : Bytes → ℕ → Option ℕ → Option Bytes
split_bracketed s i none = none
split_bracketed s i (some end) =
    if suc end == i
    then unless_bracket (drop 1 (take end s)) (drop 1 s) (drop (suc end) s)
    else none

split_at : ℕ → Bytes → Option ℕ → Option Bytes
unfolding split_plain split_bracketed
split_at c s none = none
split_at c s (some i) = if c == b'[' then split_bracketed s i (index b']' s) else split_plain s i

-- The host that net.SplitHostPort returns, or `none` for an error.
unfoldable pub split_host : Bytes → Option Bytes
unfolding split_at
split_host [] = none
split_host (c ∷ s) = split_at c (c ∷ s) (last_index b':' (c ∷ s))

-- A part of an address without brackets.
pub record NoBracket (s : Bytes) : Type 0 where
  pub no_open : index b'[' s ≡ none
  pub no_close : index b']' s ≡ none

drop_past : (c : ℕ) (s t : Bytes) → drop (suc (length s)) (s ++ c ∷ t) ≡ t
drop_past c [] t = refl
drop_past c (x ∷ s) t = drop_past c s t

-- The last colon of a bracketed address stands after the closing bracket.
last_colon :
    (host port : Bytes)
    → index b':' port ≡ none
    → last_index b':' (host ++ b']' ∷ b':' ∷ port) ≡ some (suc (length host))
unfolding last_index
last_colon [] port h = ground (arith, last_index-none b':' port)
last_colon (c ∷ host) port h = ground (arith, last_colon host port)

split_plain-host :
    (host port : Bytes)
    → NoBracket host
    → NoBracket port
    → index b':' host ≡ none
    → split_plain (host ++ b':' ∷ port) (length host) ≡ some host
unfolding split_plain
split_plain-host host port h p hc =
    let no_open : index b'[' (host ++ b':' ∷ port) ≡ none =
      index-none-append b'[' host (b':' ∷ port) h.no_open
        (unfold index in ground (arith, p.no_open)) in
    let no_close : index b']' (host ++ b':' ∷ port) ≡ none =
      index-none-append b']' host (b':' ∷ port) h.no_close
        (unfold index in ground (arith, p.no_close)) in
    rw (take-length host (b':' ∷ port), hc, no_open, no_close) refl

-- host:port, for a host without colons
split_host-plain :
    (host port : Bytes)
    → NoBracket host
    → NoBracket port
    → index b':' host ≡ none
    → index b':' port ≡ none
    → split_host (host ++ b':' ∷ port) ≡ some host
unfolding split_host
split_host-plain [] port h p hc pc =
    rw (last_index-append b':' [] port pc) (split_plain-host [] port h p hc)
split_host-plain (c ∷ host) port h p hc pc =
    let other : (c == b'[') ≡ false = unfold index in ground (arith, h.no_open) in
    rw (last_index-append b':' (c ∷ host) port pc, other) (split_plain-host (c ∷ host) port h p hc)

-- [host]:port, for a host that may have colons
split_host-bracketed :
    (host port : Bytes)
    → NoBracket host
    → NoBracket port
    → index b':' port ≡ none
    → split_host (b'[' ∷ host ++ b']' ∷ b':' ∷ port) ≡ some host
unfolding split_host
split_host-bracketed host port h p pc =
    let rest = b']' ∷ b':' ∷ port in
    let end : index b']' (b'[' ∷ host ++ rest) ≡ some (suc (length host)) =
      unfold index in ground (arith, index-append b']' host (b':' ∷ port) h.no_close) in
    let colon : last_index b':' (b'[' ∷ host ++ rest) ≡ some (suc (suc (length host))) =
      unfold last_index in ground (arith, last_colon host port pc) in
    let no_open : index b'[' (host ++ rest) ≡ none =
      index-none-append b'[' host rest h.no_open (unfold index in ground (arith, p.no_open)) in
    let no_close : index b']' (b':' ∷ port) ≡ none = unfold index in ground (arith, p.no_close) in
    rw (colon, end)
      (ground (arith, take-length host rest, no_open, drop_past b']' host (b':' ∷ port), no_close))

-- net.JoinHostPort, the form of the addresses that net/http gives to a request
unfoldable pub join_host_port : (host port : Bytes) → Bytes
join_host_port host port =
    if has b':' host then b'[' ∷ host ++ b']' ∷ b':' ∷ port else host ++ b':' ∷ port

pub split_host-join_host_port :
    (host port : Bytes)
    → NoBracket host
    → NoBracket port
    → index b':' port ≡ none
    → split_host (join_host_port host port) ≡ some host
unfolding join_host_port
split_host-join_host_port host port h p pc = elim (Option-cases (index b':' host)) [
  | inl plain ↦ rw plain (split_host-plain host port h p plain pc)
  | inr (i, colon) ↦ rw colon (split_host-bracketed host port h p pc)
]
