-- ===== src/Redis/SlidingLog/State.antt =====
-- store/redis.go: the log and the sequence number of a key, under the commands of swlScript.
use rateshield.Prelude.{
  ℕ, zero, suc, ◌+◌, ◌≤◌, ◌<◌, ◌≡◌, refl, sym, ap, ◌∙◌, arith, ℤ, pos, ◌+ℤ◌, leb_ℤ, plus_pos,
  InInt64, true, false, Option, none, some, List, [], ◌∷◌, ◌++◌, Bytes, bytes_eq, bytes_eq-eq,
  bytes_eq_refl, if◌then◌else◌, length, length-append, Bool-cases, inl, inr,
}
use rateshield.Go.{ok}
use rateshield.Go.Text.{bytes}
use rateshield.Redis.Commands.{
  Commands, IsRedis, Stored, Value, number, sorted, live_at, value_of, members_of, deadline_of,
  is_number, is_sorted, set_of, has_member, scored_above,
}
use rateshield.Redis.Sets.{HasSets}
use rateshield.Redis.Scripts.Log.{log_key, seq_key, member, add_units}
use rateshield.Redis.FixedWindow.Step.{in_range}
use rateshield.Redis.SlidingLog.Members.{
  AreNumbered, AreNumbered-le, AreNumbered-insert, has_member-next, length-scored_above-insert,
}

longer : (s t : Bytes) → 1 ≤ length t → bytes_eq s (s ++ t) ≡ false
longer s t h = elim (Bool-cases (bytes_eq s (s ++ t))) [
  | inl same ↦ absurd (omega (arith, ap length (bytes_eq-eq s (s ++ t) same), length-append s t))
  | inr other ↦ other
]

shorter : (s t : Bytes) → 1 ≤ length t → bytes_eq (s ++ t) s ≡ false
shorter s t h = elim (Bool-cases (bytes_eq (s ++ t) s)) [
  | inl same ↦ absurd (omega (arith, ap length (bytes_eq-eq (s ++ t) s same), length-append s t))
  | inr other ↦ other
]

-- What is written with a deadline that has not passed is still there.
live_again :
    {F : Type 0} (t : ℤ) (v : Value F) (o : Stored F)
    → live_at t (some (v, deadline_of (live_at t o))) ≡ some (v, deadline_of (live_at t o))
live_again t v none = refl
live_again t v (some (w, none)) = refl
live_again t v (some (w, some x)) = ground arith

pub live-set_of :
    {F : Type 0} (t : ℤ) (ms : List (Bytes × ℤ)) (o : Stored F)
    → live_at {F = F} t (set_of ms (deadline_of (live_at t o)))
      ≡ set_of ms (deadline_of (live_at t o))
live-set_of t [] o = refl
live-set_of t (m ∷ ms) o = live_again t (sorted (m ∷ ms)) o

pub members_of-set_of :
    (F : Type 0) (ms : List (Bytes × ℤ)) (x : Option ℤ)
    → (members_of {F = F} (set_of ms x) ≡ ms) × (is_sorted {F = F} (set_of ms x) ≡ true)
members_of-set_of F [] x = (refl, refl)
members_of-set_of F (m ∷ ms) x = (refl, refl)

module _ {F : Type 0} (c : Commands F) (redis : IsRedis c) (sets : HasSets c redis) (t : ℤ)
    (key : Bytes) where
  open redis use {read, incr_by-ok, read-incr_by}
  open sets use {zadd-ok, read-zadd}

  -- The log and the sequence number as they are at `t`.
  abbrev pub log_at : c.D → Stored F
  log_at d = live_at t (read (log_key key) d)

  abbrev pub seq_at : c.D → Stored F
  seq_at d = live_at t (read (seq_key key) d)

  pub other_keys :
      (bytes_eq (log_key key) (seq_key key) ≡ false)
      × (bytes_eq (seq_key key) (log_key key) ≡ false)
  other_keys = (
    longer (log_key key) (bytes ":seq") (omega arith),
    shorter (log_key key) (bytes ":seq") (omega arith),
  )

  -- The members of the log, and the sequence number `n` of the last one that was given.
  pub record At (n : ℕ) (ms : List (Bytes × ℤ)) (d : c.D) : Type 0 where
    pub set_kind : is_sorted (log_at d) ≡ true
    pub members : members_of (log_at d) ≡ ms
    pub seq_kind : is_number (seq_at d) ≡ true
    pub seq_value : value_of (seq_at d) ≡ pos n
    pub numbered : AreNumbered n ms

  -- INCR of the sequence number.
  incr-At :
      (n : ℕ) (ms : List (Bytes × ℤ)) (d : c.D)
      → n < 9223372036854775807
      → At n ms d
      → let run = c.incr_by t (seq_key key) (pos 1) d in
        (run.0 ≡ ok (pos (suc n))) × At (suc n) ms run.1
  incr-At n ms d lt at =
      let k = seq_key key in
      let sum : value_of (seq_at d) +ℤ pos 1 ≡ pos (suc n) =
        rw at.seq_value (plus_pos n 1 ∙ ap pos (omega arith)) in
      let range : InInt64 (value_of (seq_at d) +ℤ pos 1) =
        rw sum (in_range (suc n) (omega arith)) in
      let d' = (c.incr_by t k (pos 1) d).1 in
      let log_same : read (log_key key) d' ≡ read (log_key key) d =
        read-incr_by t k (pos 1) d (log_key key) at.seq_kind range ∙ rw other_keys.1 refl in
      let written : read k d' ≡ some (number (pos (suc n)), deadline_of (seq_at d)) =
        read-incr_by t k (pos 1) d k at.seq_kind range ∙ rw (bytes_eq_refl k, sum) refl in
      let seq_new : seq_at d' ≡ some (number (pos (suc n)), deadline_of (seq_at d)) =
        ap (live_at t) written ∙ live_again t (number (pos (suc n))) (read k d) in
      (
        incr_by-ok t k (pos 1) d at.seq_kind range ∙ ap ok sum,
        record {
          set_kind = rw log_same at.set_kind;
          members = rw log_same at.members;
          seq_kind = rw seq_new refl;
          seq_value = rw seq_new refl;
          numbered = AreNumbered-le n (suc n) ms (omega arith) at.numbered;
        },
      )

  -- ZADD of the member with that number.
  zadd-At :
      (now : ℤ) (i n : ℕ) (ms : List (Bytes × ℤ)) (d : c.D)
      → AreNumbered n ms
      → n < 9223372036854775807
      → At (suc n) ms d
      → let run = c.zadd t (log_key key) now (member now i (pos (suc n))) d in
        (run.0 ≡ ok (pos 1))
        × (ms' : List (Bytes × ℤ)) × At (suc n) ms' run.1
        × ((z : ℤ)
            → length (scored_above z ms')
              ≡ length (scored_above z ms) + (if leb_ℤ now z then 0 else 1))
  zadd-At now i n ms d old lt at =
      let k = log_key key in
      let m = member now i (pos (suc n)) in
      let absent : has_member m (members_of (log_at d)) ≡ false =
        rw at.members (has_member-next now i n ms lt old) in
      let (below, above, parts, writes) = read-zadd t k now m d at.set_kind absent in
      let d' = (c.zadd t k now m d).1 in
      let ms_parts : below ++ above ≡ ms = sym parts ∙ at.members in
      let written : read k d' ≡ some (sorted (below ++ (m, now) ∷ above), deadline_of (log_at d)) =
        writes k ∙ rw (bytes_eq_refl k) refl in
      let log_new : log_at d' ≡ some (sorted (below ++ (m, now) ∷ above), deadline_of (log_at d)) =
        ap (live_at t) written ∙ live_again t (sorted (below ++ (m, now) ∷ above)) (read k d) in
      let seq_same : read (seq_key key) d' ≡ read (seq_key key) d =
        writes (seq_key key) ∙ rw other_keys.0 refl in
      (
        zadd-ok t k now m d at.set_kind absent,
        below ++ (m, now) ∷ above,
        record {
          set_kind = rw log_new refl;
          members = rw log_new refl;
          seq_kind = rw seq_same at.seq_kind;
          seq_value = rw seq_same at.seq_value;
          numbered =
              AreNumbered-insert (suc n) (m, now) below above
                (now, i, suc n, omega arith, omega arith, refl) (rw ms_parts at.numbered);
        },
        λ z. length-scored_above-insert z m now below above ∙ rw ms_parts refl,
      )

  -- The loop over the units gives each of them a member.
  pub add_units-At :
      (now : ℤ) (left i n : ℕ) (ms : List (Bytes × ℤ)) (d : c.D)
      → n + left ≤ 9223372036854775807
      → At n ms d
      → let run = add_units c t key now left i d in
        (run.0 ≡ ok tt)
        × (ms' : List (Bytes × ℤ)) × At (n + left) ms' run.1
        × ((z : ℤ)
            → length (scored_above z ms')
              ≡ length (scored_above z ms) + (if leb_ℤ now z then 0 else left))
  unfolding add_units
  add_units-At now zero i n ms d le at =
      let same : n + 0 ≡ n = omega arith in (refl, ms, rw same at, λ z. ground arith)
  add_units-At now (suc left) i n ms d le at =
      let (incr, at1) = incr-At n ms d (omega arith) at in
      let d1 = (c.incr_by t (seq_key key) (pos 1) d).1 in
      let (added, ms2, at2, counts) = zadd-At now i n ms d1 at.numbered (omega arith) at1 in
      let d2 = (c.zadd t (log_key key) now (member now i (pos (suc n))) d1).1 in
      let (done, ms3, at3, counts') =
        add_units-At now left (suc i) (suc n) ms2 d2 (omega arith) at2 in
      let sum : n + suc left ≡ suc n + left = omega arith in
      rw (incr, added, sum) (done, ms3, at3, λ z. ground (arith, counts z, counts' z))
