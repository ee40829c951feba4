-- ===== src/Redis.antt =====
-- store/redis.go: the methods of Redis, over any client. The client, with the server behind it, is a
-- parameter, and so is the JSON form of a state.
use rateshield.Prelude.{
  ℕ, zero, suc, ℤ, pos, ◌*ℤ◌, eq_ℤ, int64, Option, none, some, List, [], ◌∷◌, ◌++◌, Bytes, ◌==◌,
  if◌then◌else◌,
}
use rateshield.Go.{Context, Error, Outcome, ok, err, client_required, invalid_format, invalid_types}
use rateshield.Go.Float.{Float64}
use rateshield.Go.Text.{bytes}
use rateshield.Go.Time.{
  Time, Duration, Clock, now, later, add, millisecond, milliseconds, unix_milli,
}
use rateshield.Memory.Legacy.{empty_state}
use rateshield.Store.{State, EvalResult, Answer, Store}
pub mod Commands
pub mod Sets
pub mod Hashes
pub mod Scripts
pub mod Server
pub mod FixedWindow
pub mod TokenBucket
pub mod SlidingCounter
pub mod SlidingLog
pub mod Resetting

-- What a script returns, as the client hands it over: a slice whose elements may be of type int64.
pub data Item : Type 0 where
  int_item : ℤ → Item
  other_item : Item

pub data Raw : Type 0 where
  slice : List Item → Raw
  other_raw : Raw

-- An argument of a script.
pub data Arg (F : Type 0) : Type 0 where
  float_arg : F → Arg F
  int_arg : ℤ → Arg F

-- The four scripts that NewRedis loads.
pub data Script : Type 0 where
  tb_script fw_script swc_script swl_script : Script

-- What Get of the client gives: a value, redis.Nil, or another error.
pub data Fetched : Type 0 where
  found : Bytes → Fetched
  missing : Fetched
  failed : Error → Fetched

-- The calls of *redis.Client, over the state of the server.
pub record Client (F : Type 0) : Type 1 where
  pub S : Type 0
  pub get : Context → Bytes → S → Fetched × S
  pub set : Context → Bytes → Bytes → Duration → S → Option Error × S
  -- the pipeline of Incr and Expire
  pub incr_expire : Context → Bytes → Duration → S → Outcome ℤ × S
  pub scan :
      Context → (cursor : ℕ) → (pattern : Bytes) → (count : ℕ) → S → Outcome (List Bytes × ℕ) × S
  pub del : Context → List Bytes → S → Option Error × S
  pub run : Script → Context → (keys : List Bytes) → List (Arg F) → S → Outcome Raw × S
  pub close : S → Option Error × S

-- json.Marshal and json.Unmarshal of a state.
pub record Json (F : Type 0) : Type 0 where
  pub marshal : State F → Outcome Bytes
  pub unmarshal : Bytes → Outcome (State F)

-- RedisConfig and Redis
pub record RedisConfig (F : Type 0) : Type 1 where
  pub client : Option (Client F)
  pub prefix : Bytes

pub record Redis (F : Type 0) : Type 1 where
  pub client : Client F
  pub prefix : Bytes

abbrev prefix_or_default : Bytes → Bytes
prefix_or_default [] = bytes "rateshield:"
prefix_or_default (c ∷ s) = c ∷ s

module _ {F : Type 0} where
  new_over : Bytes → Option (Client F) → Outcome (Redis F)
  new_over prefix none = err client_required
  new_over prefix (some client) = ok (record { client = client; prefix = prefix_or_default prefix })

  -- NewRedis
  unfoldable pub new : RedisConfig F → Outcome (Redis F)
  unfolding new_over
  new cfg = new_over cfg.prefix cfg.client

-- parseEvalResult, for a slice of four int64 values at least, or what is wrong with it
unfoldable pub parse_slice : List Item → Time → Outcome EvalResult
parse_slice (int_item allowed ∷ int_item remaining ∷ int_item reset_ms ∷ int_item retry_ms ∷ rest)
      t =
    ok (record {
      allowed = eq_ℤ allowed (pos 1);
      remaining = remaining;
      reset_at = add t (int64 (reset_ms *ℤ millisecond));
      retry_after = int64 (retry_ms *ℤ millisecond);
    })
parse_slice (a ∷ b ∷ c ∷ d ∷ rest) t = err invalid_types
parse_slice short t = err invalid_format

unfoldable pub parse_eval_result : Raw → Time → Outcome EvalResult
unfolding parse_slice
parse_eval_result (slice items) t = parse_slice items t
parse_eval_result other_raw t = err invalid_format

unfoldable pub parse_reply : Outcome Raw → Time → Outcome EvalResult
unfolding parse_eval_result
parse_reply (ok raw) t = parse_eval_result raw t
parse_reply (err e) t = err e

module _ {F : Type 0} (r : Redis F) where
  -- A run of a script with `time.Now()` before it.
  run_script :
      Script → Context → Bytes → (Time → List (Arg F)) → Clock → r.client.S → Answer r.client.S
  unfolding parse_reply
  run_script script ctx key args clock st =
      let t = now clock in
      let (reply, st') = r.client.run script ctx ((r.prefix ++ key) ∷ []) (args t) st in
      (parse_reply reply t, st', later clock)

  unfoldable pub allow_token_bucket :
      Context
      → Bytes
      → (rate : F) → (capacity n : ℤ) → (ttl : Duration) → Clock
      → r.client.S
      → Answer r.client.S
  unfolding run_script
  allow_token_bucket ctx key rate capacity n ttl = run_script tb_script ctx key (λ t.
      float_arg rate
      ∷ int_arg capacity
      ∷ int_arg (unix_milli t)
      ∷ int_arg n
      ∷ int_arg (milliseconds ttl)
      ∷ [])

  unfoldable pub allow_fixed_window :
      Context
      → Bytes
      → (limit : ℤ) → (window : Duration) → (n : ℤ) → (ttl : Duration) → Clock
      → r.client.S
      → Answer r.client.S
  unfolding run_script
  allow_fixed_window ctx key limit window n ttl =
      run_script fw_script ctx key (λ t.
        int_arg limit ∷ int_arg (milliseconds window) ∷ int_arg (unix_milli t) ∷ int_arg n ∷ [])

  unfoldable pub allow_sliding_window_counter :
      Context
      → Bytes
      → (limit : ℤ) → (window : Duration) → (n : ℤ) → (ttl : Duration) → Clock
      → r.client.S
      → Answer r.client.S
  unfolding run_script
  allow_sliding_window_counter ctx key limit window n ttl =
      run_script swc_script ctx key (λ t.
        int_arg limit ∷ int_arg (milliseconds window) ∷ int_arg (unix_milli t) ∷ int_arg n ∷ [])

  unfoldable pub allow_sliding_window_log :
      Context
      → Bytes
      → (limit : ℤ) → (window : Duration) → (n : ℤ) → (ttl : Duration) → Clock
      → r.client.S
      → Answer r.client.S
  unfolding run_script
  allow_sliding_window_log ctx key limit window n ttl = run_script swl_script ctx key (λ t.
      int_arg limit
      ∷ int_arg (milliseconds window)
      ∷ int_arg (unix_milli t)
      ∷ int_arg n
      ∷ int_arg (milliseconds ttl)
      ∷ [])

  unfoldable pub increment : Context → Bytes → Duration → r.client.S → Outcome ℤ × r.client.S
  increment ctx key ttl = r.client.incr_expire ctx (r.prefix ++ key) ttl

  unfoldable pub close : r.client.S → Option Error × r.client.S
  close = r.client.close

module _ {F : Type 0} ⦃fl : Float64 F⦄ (json : Json F) (r : Redis F) where
  read_state : Fetched → Outcome (State F)
  read_state (found value) = json.unmarshal value
  read_state missing = ok empty_state
  read_state (failed e) = err e

  unfoldable pub get : Context → Bytes → r.client.S → Outcome (State F) × r.client.S
  unfolding read_state
  get ctx key st = let (f, st') = r.client.get ctx (r.prefix ++ key) st in (read_state f, st')

  write_state : Context → Bytes → Duration → Outcome Bytes → r.client.S → Option Error × r.client.S
  write_state ctx key ttl (ok value) st = r.client.set ctx (r.prefix ++ key) value ttl st
  write_state ctx key ttl (err e) st = (some e, st)

  unfoldable pub set : Context → Bytes → State F → Duration → r.client.S → Option Error × r.client.S
  unfolding write_state
  set ctx key state ttl st = write_state ctx key ttl (json.marshal state) st

module _ {F : Type 0} (r : Redis F) where
  -- one round of the loop of Reset, and what the rounds after it do
  after_scan :
      (List Bytes → ℕ → r.client.S → Option (List Bytes × r.client.S))
      → List Bytes
      → Outcome (List Bytes × ℕ) × r.client.S
      → Option (List Bytes × r.client.S)
  after_scan again keys (err e, st) = some (keys, st)
  after_scan again keys (ok (more, cursor), st) =
      if cursor == 0 then some (keys ++ more, st) else again (keys ++ more) cursor st

  -- The loop of Reset, for `fuel` rounds at most; `none` stands for a loop that has not ended.
  unfoldable pub scan_from :
      (fuel : ℕ)
      → Context
      → (pattern : Bytes) → (keys : List Bytes) → (cursor : ℕ) → r.client.S
      → Option (List Bytes × r.client.S)
  unfolding after_scan
  scan_from zero ctx pattern keys cursor st = none
  scan_from (suc fuel) ctx pattern keys cursor st =
      after_scan (scan_from fuel ctx pattern) keys (r.client.scan ctx cursor pattern 100 st)

  delete_all : Context → Option (List Bytes × r.client.S) → Option (Option Error × r.client.S)
  delete_all ctx none = none
  delete_all ctx (some (keys, st)) = some (r.client.del ctx keys st)

  -- Reset
  unfoldable pub reset :
      (fuel : ℕ) → Context → Bytes → r.client.S → Option (Option Error × r.client.S)
  unfolding scan_from delete_all
  reset fuel ctx key st =
      let full_key = r.prefix ++ key in
      delete_all ctx (scan_from fuel ctx (full_key ++ bytes ":*") (full_key ∷ []) 0 st)
