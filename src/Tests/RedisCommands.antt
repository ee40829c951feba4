-- ===== src/Tests/RedisCommands.antt =====
-- A Redis server at concrete data, and a client of it.
use rateshield.Prelude.{
  ℕ, ℤ, pos, ◌-◌, ◌+ℤ◌, ◌-ℤ◌, plus_pos, ◌≡◌, refl, ap, arith, none, some, List, [], ◌∷◌, ◌++◌,
  length, Bytes, bytes_eq, if◌then◌else◌,
}
use rateshield.Go.{Outcome, ok, err, invalid_types}
use rateshield.Go.Float.{int_float}
use rateshield.Go.Text.{bytes}
use rateshield.Memory.Window.Order.{millis}
use rateshield.Redis.{
  Client, Redis, missing, other_raw, Script, Arg, int_arg, float_arg, tb_script, fw_script,
  swc_script, swl_script, Raw,
}
use rateshield.Redis.Commands.{
  Commands, IsRedis, Stored, number, bucket, sorted, live_at, value_of, members_of, deadline_of,
  is_number, is_sorted, is_bucket, number_in, bucket_in, with_deadline, set_of, scored_above,
  has_member,
}
use rateshield.Redis.Server.{Serves, raw_of}
use rateshield.Redis.FixedWindow.History.{IsNear}
use rateshield.Redis.Sets.{HasSets, score_at}
use rateshield.Redis.Scripts.Counter.{swc_run}
use rateshield.Redis.SlidingCounter.Server.{ServesCounter}
use rateshield.Redis.Scripts.Log.{swl_run}
use rateshield.Redis.Scripts.{fw_run}
use rateshield.Redis.Hashes.{HasHashes}
use rateshield.Redis.Scripts.Bucket.{tb_run}
use rateshield.Redis.TokenBucket.Server.{ServesBucket}

-- A server's data as a function.
abbrev pub Data : Type 0
Data = Bytes → Stored ℤ

abbrev pub store_at : Bytes → Stored ℤ → Data → Data
store_at k o d j = if bytes_eq k j then o else d j

-- an error of a command, for a key that holds something else
abbrev pub wrong_type : {A : Type 0} → Data → Outcome A × Data
wrong_type d = (err invalid_types, d)

abbrev pub commands : Commands ℤ
commands = record {
  D = Data;
  incr_by = λ t k n d.
      let o = live_at t (d k) in
      if is_number o
      then (ok (value_of o +ℤ n), store_at k (some (number (value_of o +ℤ n), deadline_of o)) d)
      else wrong_type d;
  decr_by = λ t k n d.
      let o = live_at t (d k) in
      if is_number o
      then (ok (value_of o -ℤ n), store_at k (some (number (value_of o -ℤ n), deadline_of o)) d)
      else wrong_type d;
  pexpire = λ t k ms d. store_at k (with_deadline (t +ℤ ms) (live_at t (d k))) d;
  get = λ t k d.
      let o = live_at t (d k) in if is_number o then (ok (number_in o), d) else wrong_type d;
  hmget = λ t k d.
      let o = live_at t (d k) in if is_bucket o then (ok (bucket_in o), d) else wrong_type d;
  hset = λ t k tokens last_update d.
      let o = live_at t (d k) in
      if is_bucket o
      then (ok (pos 2), store_at k (some (bucket tokens last_update, deadline_of o)) d)
      else wrong_type d;
  zremrangebyscore = λ t k max d.
      let o = live_at t (d k) in
      let rest = scored_above max (members_of o) in
      if is_sorted o
      then (
        ok (pos (length (members_of o) - length rest)),
        store_at k (set_of rest (deadline_of o)) d,
      )
      else wrong_type d;
  zcard = λ t k d.
      let o = live_at t (d k) in
      if is_sorted o then (ok (pos (length (members_of o))), d) else wrong_type d;
  zadd = λ t k score m d.
      let o = live_at t (d k) in
      if is_sorted o
      then if has_member m (members_of o) then (ok (pos 0), d) else (
        ok (pos 1),
        store_at k (some (sorted (members_of o ++ (m, score) ∷ []), deadline_of o)) d,
      )
      else wrong_type d;
  zrange = λ t k place d.
      let o = live_at t (d k) in
      if is_sorted o then (ok (score_at place (members_of o)), d) else wrong_type d;
}

pub unread_number : (t : ℤ) (k : Bytes) (d : Data) (j : Bytes) → (commands.get t k d).1 j ≡ d j
unread_number t k d j = ground arith

abbrev pub commands-IsRedis : IsRedis commands
commands-IsRedis = record {
  read = λ k d. d k;
  incr_by-ok = λ t k n d kind h. rw kind refl;
  read-incr_by = λ t k n d j kind h. rw kind refl;
  decr_by-ok = λ t k n d kind h. rw kind refl;
  read-decr_by = λ t k n d j kind h. rw kind refl;
  read-pexpire = λ t k ms d j h. refl;
  get-ok = λ t k d kind. rw kind refl;
  read-get = unread_number;
}

unread_fields : (t : ℤ) (k : Bytes) (d : Data) (j : Bytes) → (commands.hmget t k d).1 j ≡ d j
unread_fields t k d j = ground arith

pub commands-HasHashes : HasHashes commands commands-IsRedis
commands-HasHashes = record {
  hmget-ok = λ t k d kind. rw kind refl;
  read-hmget = unread_fields;
  hset-ok = λ t k tokens last d kind. (pos 2, rw kind refl);
  read-hset = λ t k tokens last d j kind. rw kind refl;
}

append-nil : {A : Type 0} (xs : List A) → xs ≡ xs ++ []
append-nil [] = refl
append-nil (x ∷ xs) = ap (λ ys. x ∷ ys) (append-nil xs)

-- A look at a set changes nothing.
unread : (t : ℤ) (k : Bytes) (d : Data) (j : Bytes) → (commands.zcard t k d).1 j ≡ d j
unread t k d j = ground arith

unread_score :
    (t : ℤ) (k : Bytes) (place : ℤ) (d : Data) (j : Bytes) → (commands.zrange t k place d).1 j ≡ d j
unread_score t k place d j = ground arith

pub commands-HasSets : HasSets commands commands-IsRedis
commands-HasSets = record {
  zremrangebyscore-ok = λ t k max d kind. rw kind refl;
  read-zremrangebyscore = λ t k max d j kind. rw kind refl;
  zcard-ok = λ t k d kind. rw kind refl;
  read-zcard = unread;
  zadd-ok = λ t k score m d kind new. rw (kind, new) refl;
  read-zadd = λ t k score m d kind new.
      (members_of (live_at t (d k)), [], append-nil _, λ j. rw (kind, new) refl);
  zrange-ok = λ t k place d kind. rw kind refl;
  read-zrange = unread_score;
}

-- A run of a script on the clock and the data of the server.
abbrev pub run : Script → List Bytes → List (Arg ℤ) → ℤ × Data → Outcome Raw × (ℤ × Data)
run fw_script (key ∷ []) (int_arg limit ∷ int_arg ms ∷ int_arg now ∷ int_arg n ∷ []) (clock, d) =
    let (reply, d') = fw_run commands clock key limit ms now n d in (raw_of reply, (clock, d'))
run tb_script (key ∷ [])
      (float_arg rate ∷ int_arg capacity ∷ int_arg now ∷ int_arg n ∷ int_arg ttl ∷ []) (clock, d) =
    let (reply, d') = tb_run commands clock key rate capacity now n ttl d in
    (raw_of reply, (clock, d'))
run swc_script (key ∷ []) (int_arg limit ∷ int_arg ms ∷ int_arg now ∷ int_arg n ∷ []) (clock, d) =
    let (reply, d') = swc_run commands clock key limit ms now n d in (raw_of reply, (clock, d'))
run swl_script (key ∷ []) (int_arg limit ∷ int_arg ms ∷ int_arg now ∷ int_arg n ∷ int_arg ttl ∷ [])
      (clock, d) =
    let (reply, d') = swl_run commands clock key limit ms now n ttl d in (raw_of reply, (clock, d'))
run script keys args s = (ok other_raw, s)

abbrev pub client : Client ℤ
client = record {
  S = ℤ × Data;
  get = λ ctx key s. (missing, s);
  set = λ ctx key value ttl s. (none, s);
  incr_expire = λ ctx key ttl s. (ok (pos 1), s);
  scan = λ ctx cursor pattern count s. (ok ([], 0), s);
  del = λ ctx keys s. (none, s);
  run = λ script ctx keys args s. run script keys args s;
  close = λ s. (none, s);
}

abbrev pub redis : Redis ℤ
redis = record { client = client; prefix = bytes "p:" }

pub IsNear-self : (a : ℕ) → IsNear 0 a (pos a)
IsNear-self a = record { late = ground (arith, plus_pos a 0); early = omega arith }

abbrev pub client-Serves : Serves commands commands-IsRedis client 0
client-Serves = record {
  data_of = λ s. s.1;
  clock_of = λ s. s.0;
  arrive = λ t s. (pos (millis t), s.1);
  data_of-arrive = λ t s. refl;
  clock_of-arrive = λ t s era. IsNear-self (millis t);
  run-fw_script = λ key limit ms now n s wide narrow late exact. (refl, refl);
  run-swl_script = λ key limit ms now n ttl s wide narrow late lasts exact digits. (refl, refl);
}

abbrev pub client-ServesCounter : ServesCounter commands commands-IsRedis client 0 client-Serves
client-ServesCounter = record {
  run-swc_script = λ key limit ms now n s wide narrow late exact curr prev. (refl, refl);
}

abbrev pub client-ServesBucket : ServesBucket commands commands-IsRedis client 0 client-Serves
client-ServesBucket = record {
  run-tb_script = λ key rate capacity now n ttl s small late few lasts low high. (refl, refl);
}
