-- ===== src/Redis/SlidingLog/Contents.antt =====
-- store/redis.go: what the log and the sequence number of a key hold between two runs of swlScript.
use rateshield.Prelude.{
  ℕ, ◌+◌, ◌*◌, ◌≤◌, ◌≡◌, refl, sym, ap, arith, ℤ, pos, ◌-ℤ◌, ◌≤ℤ◌, ◌<ℤ◌, ltb_ℤ, -ℤ_parts, true,
  false, none, some, [], ◌∷◌, length, All, Bool-cases, inl, inr,
}
use rateshield.Memory.SlidingLog.Evict.{filter_after, filter_after_none}
use rateshield.Memory.SlidingLog.Promise.{Log}
use rateshield.Redis.Commands.{
  Stored, number, sorted, live_at, value_of, members_of, is_number, is_sorted, scored_above,
}
use rateshield.Redis.FixedWindow.History.{IsNear}
use rateshield.Redis.SlidingLog.Members.{AreNumbered}

still : (a last b : ℕ) (z : ℤ) → last ≤ a → pos a -ℤ pos b ≤ℤ z → pos last -ℤ pos b ≤ℤ z
still a last b z later le = omega (arith, -ℤ_parts (pos a) (pos b), -ℤ_parts (pos last) (pos b))

-- A log that has expired holds no unit of the window.
forgets :
    (a b skew ttl latest : ℕ) (t x z : ℤ)
    → IsNear skew a t
    → b + 2 * skew ≤ ttl
    → ltb_ℤ x t ≡ true
    → pos (latest + ttl) -ℤ pos skew ≤ℤ x
    → pos a -ℤ pos b ≤ℤ z
    → pos latest ≤ℤ z
forgets a b skew ttl latest t x z near long old keep le =
    let early = near.early in
    let expired : x <ℤ t = ground (arith, old) in
    omega
      (arith, early, expired, -ℤ_parts (pos (latest + ttl)) (pos skew), -ℤ_parts (pos a) (pos b))

module _ {F : Type 0} where
  -- A log that has members is kept up to `keep`, and the sequence number at least as long as it.
  abbrev pub AreKept : (keep : ℤ) (log seq : Stored F) → Type 0
  AreKept keep none seq = Unit
  AreKept keep (some (sorted [], dl)) seq = Unit
  AreKept keep (some (sorted (m ∷ ms), some x)) (some (number n, some y)) = (keep ≤ℤ x) × (x ≤ℤ y)
  AreKept keep _ _ = ⊥

  -- The log and the sequence number after the requests up to `last`, all in milliseconds, of which
  -- the units `h` were admitted.
  pub record Contents (b skew ttl last : ℕ) (h : Log) (log seq : Stored F) : Type 0 where
    pub n : ℕ
    pub few : n ≤ length h
    pub set_kind : is_sorted log ≡ true
    pub seq_kind : is_number seq ≡ true
    pub seq_value : value_of seq ≡ pos n
    pub numbered : AreNumbered n (members_of log)
    pub counts :
        (z : ℤ)
        → pos last -ℤ pos b ≤ℤ z
        → length (scored_above z (members_of log)) ≡ length (filter_after z h)
    pub latest : ℕ
    pub no_later : latest ≤ last
    pub past : All (λ s. s ≤ℤ pos latest) h
    pub kept : AreKept (pos (latest + ttl) -ℤ pos skew) log seq

  -- What a run sees of them at `t`, when the caller's clock shows `a`.
  pub record Seen (b a : ℕ) (t : ℤ) (h : Log) (log seq : Stored F) : Type 0 where
    pub n : ℕ
    pub few : n ≤ length h
    pub set_kind : is_sorted (live_at t log) ≡ true
    pub seq_kind : is_number (live_at t seq) ≡ true
    pub seq_value : value_of (live_at t seq) ≡ pos n
    pub numbered : AreNumbered n (members_of (live_at t log))
    pub counts :
        (z : ℤ)
        → pos a -ℤ pos b ≤ℤ z
        → length (scored_above z (members_of (live_at t log))) ≡ length (filter_after z h)

  -- The sequence number may have expired, and counts from zero then.
  seq_seen :
      (t : ℤ) (n : ℕ) (seq : Stored F)
      → is_number seq ≡ true
      → value_of seq ≡ pos n
      → (n' : ℕ) × (n' ≤ n)
        × (is_number (live_at t seq) ≡ true)
        × (value_of (live_at t seq) ≡ pos n')
  seq_seen t n none kind value = (n, omega arith, refl, value)
  seq_seen t n (some (number v, none)) kind value = (n, omega arith, refl, value)
  seq_seen t n (some (number v, some y)) kind value = elim (Bool-cases (ltb_ℤ y t)) [
    | inl old ↦ (0, omega arith, rw old refl, rw old refl)
    | inr young ↦ (n, omega arith, rw young refl, rw young value)
  ]
  seq_seen t n _ kind value = cc

  module _ (b skew ttl last a : ℕ) (t : ℤ) (h : Log) (later : last ≤ a) (near : IsNear skew a t)
      (long : b + 2 * skew ≤ ttl) where
    -- A log without members at `t`.
    empty-Seen :
        (log seq : Stored F)
        → Contents b skew ttl last h log seq
        → is_sorted (live_at t log) ≡ true
        → members_of (live_at t log) ≡ []
        → ((z : ℤ) → pos a -ℤ pos b ≤ℤ z → length (filter_after z h) ≡ 0)
        → Seen b a t h log seq
    empty-Seen log seq k kind none_left forgotten =
        let (n, le, seq_kind, seq_value) = seq_seen t k.n seq k.seq_kind k.seq_value in
        record {
          n = n;
          few = omega (arith, k.few);
          set_kind = kind;
          seq_kind = seq_kind;
          seq_value = seq_value;
          numbered = rw none_left tt;
          counts = λ z le'. rw none_left (sym (forgotten z le'));
        }

    -- A run sees what the log holds of the window, whether it has expired or not.
    pub Contents-Seen :
        (log seq : Stored F) → Contents b skew ttl last h log seq → Seen b a t h log seq
    Contents-Seen none seq k =
        empty-Seen none seq k refl refl (λ z le. sym (k.counts z (still a last b z later le)))
    Contents-Seen (some (sorted [], none)) seq k =
        empty-Seen (some (sorted [], none)) seq k refl refl
          (λ z le. sym (k.counts z (still a last b z later le)))
    Contents-Seen (some (sorted [], some x)) seq k =
        let kind : is_sorted (live_at {F = F} t (some (sorted [], some x))) ≡ true = ground arith in
        let none_left : members_of (live_at {F = F} t (some (sorted [], some x))) ≡ [] =
          ground arith in
        empty-Seen (some (sorted [], some x)) seq k kind none_left
          (λ z le. sym (k.counts z (still a last b z later le)))
    Contents-Seen (some (sorted (m ∷ ms), some x)) (some (number v, some y)) k =
        let log : Stored F = some (sorted (m ∷ ms), some x) in
        let seq : Stored F = some (number v, some y) in
        elim (Bool-cases (ltb_ℤ x t)) [
          | inl old ↦ empty-Seen log seq k (rw old refl) (rw old refl) (λ z le. ap length (
              filter_after_none z (pos k.latest) h
                (forgets a b skew ttl k.latest t x z near long old k.kept.0 le) k.past))
          | inr young ↦
              let alive : ltb_ℤ y t ≡ false = ground (arith, k.kept.1) in
              record {
                n = k.n;
                few = k.few;
                set_kind = rw young refl;
                seq_kind = rw alive refl;
                seq_value = rw alive k.seq_value;
                numbered = rw young k.numbered;
                counts = λ z le. rw young (k.counts z (still a last b z later le));
              }
        ]
    Contents-Seen _ _ k = absurd k.kept
