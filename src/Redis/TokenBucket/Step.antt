-- ===== src/Redis/TokenBucket/Step.antt =====
-- store/redis.go: one run of tbScript, on the bucket that is stored.
use rateshield.Prelude.{
  Bool, ℤ, pos, ◌+ℤ◌, ◌≤ℤ◌, ◌≡◌, refl, ◌∙◌, true, none, some, Bytes, bytes_eq_refl, if◌then◌else◌,
  Bool-cases, inl, inr, ltb_ℤ,
}
use rateshield.Go.{ok}
use rateshield.Go.Float.{Float64}
use rateshield.Redis.Commands.{
  Commands, IsRedis, Stored, bucket, live_at, deadline_of, bucket_in, is_bucket,
}
use rateshield.Redis.Hashes.{HasHashes}
use rateshield.Redis.Scripts.{Reply, flag, after-ok, at_least_zero}
use rateshield.Redis.Scripts.Bucket.{bucket_of, tb_run}

live_kept :
    {F : Type 0} (t : ℤ) (x : F) (last : ℤ) (o : Stored F)
    → live_at t (some (bucket x last, deadline_of (live_at t o)))
      ≡ some (bucket x last, deadline_of (live_at t o))
live_kept t x last none = refl
live_kept t x last (some (v, none)) = refl
live_kept t x last (some (v, some y)) = elim (Bool-cases (ltb_ℤ y t)) [
  | inl old ↦ rw old refl
  | inr young ↦ rw young (rw young refl)
]

module _ {F : Type 0} ⦃fl : Float64 F⦄ (c : Commands F) (redis : IsRedis c)
    (hashes : HasHashes c redis) (t : ℤ) (key : Bytes) (rate : F) (capacity now n ttl : ℤ)
    (d : c.D) where
  open redis use {read, read-pexpire}
  open hashes use {hmget-ok, read-hmget, hset-ok, read-hset}

  -- The bucket that the run starts from, whether the request passes, and the tokens that it leaves.
  abbrev pub start : F × ℤ
  start = bucket_of rate capacity now (bucket_in (live_at t (read key d)))

  abbrev pub covered : Bool
  covered = fl.fle (fl.of_int n) start.0

  abbrev pub left : F
  left = if covered then fl.fsub start.0 (fl.of_int n) else start.0

  -- One run of tbScript, on a key that holds a bucket or nothing.
  pub tb_run-start :
      is_bucket (live_at t (read key d)) ≡ true
      → pos 1 ≤ℤ ttl
      → let (reply, d') = tb_run c t key rate capacity now n ttl d in
        ((rep : Reply) × (reply ≡ ok rep)
          × (rep.allowed ≡ flag covered)
          × (rep.remaining ≡ at_least_zero (fl.floor_of left)))
        × (read key d' ≡ some (bucket left start.1, some (t +ℤ ttl)))
  unfolding tb_run
  tb_run-start kind lasts =
      let d1 = (c.hmget t key d).1 in
      let unread : read key d1 ≡ read key d = read-hmget t key d key in
      let kind' : is_bucket (live_at t (read key d1)) ≡ true = rw unread kind in
      let (m, written) = hset-ok t key left start.1 d1 kind' in
      let d2 = (c.hset t key left start.1 d1).1 in
      let holds : read key d2 ≡ some (bucket left start.1, deadline_of (live_at t (read key d))) =
        read-hset t key left start.1 d1 key kind' ∙ rw (bytes_eq_refl key, unread) refl in
      let expires : read key (c.pexpire t key ttl d2)
          ≡ some (bucket left start.1, some (t +ℤ ttl)) =
        read-pexpire t key ttl d2 key lasts
        ∙ rw (bytes_eq_refl key, holds, live_kept t left start.1 (read key d)) refl in
      rw
        (
          after-ok _ (c.hmget t key d) _ (hmget-ok t key d kind),
          after-ok _ (c.hset t key left start.1 d1) m written,
        )
        ((_, refl, refl, refl), expires)
