-- ===== src/Lib.antt =====
-- rateshield: rate limiters over storage backends, for Go servers.
--
-- A limiter (limiters.go) takes a key and a number of units and asks its store (store/store.go) for
-- one evaluation of its algorithm. The memory store (store/memory.go) keeps an entry per key in 64
-- shards, and a cleanup goroutine drops the entries that have expired. The fallback store
-- (store/fallback.go) puts a circuit breaker (internal/circuit/circuit.go) in front of a primary
-- store and answers from a secondary store when the primary fails or the breaker is open. New
-- (options.go) makes a limiter from functional options. The middleware (middleware/) takes the key of
-- an HTTP request (keys.go), asks a limiter about it, and hands the request on or refuses it. The
-- Redis store (store/redis.go) is another backend, whose evaluations are scripts on the server.
--
-- Files and the code that they model:
--   Prelude             Boolean tests, lists, integers, int64 with its wrap-around, association lists
--   Go.Errors           errors.go; the pair of a value and an error; `ctx.Err()` of a call's context
--   Go.Time             the parts of package time that are called: an instant is a number of
--                       nanoseconds since Go's zero time, `sub` stops at the ends of int64
--   Go.Float            float64 as an interface with documented laws, and integers as an instance
--   Go.Text             the functions of package strings that are called; Go.Text.Decimal is
--                       strconv.FormatInt and the reading of its result
--   Go.Address          net.SplitHostPort
--   Go.Http             what the code reads of a request of net/http
--   Store               store/store.go: State, EvalResult, the interface Store
--   Circuit             internal/circuit/circuit.go: one function per method of Breaker; Invariant,
--                       Cycle (thresholds and cooldown) and Traces (sequences of calls) are proofs
--   Circuit.Interleaved the same methods as the atomic operations of goroutines, in any order; what
--                       Allow returns is left out there. Closing and Mutex are proofs
--   Memory              store/memory.go: fnv1a, getShard, NewMemory, Reset, Close, the accesses to
--                       the map of a shard
--   Memory.Window       the window arithmetic, and the frame of the four evaluations
--   Memory.FixedWindow, Memory.SlidingCounter, Memory.SlidingLog, Memory.TokenBucket
--                       the methods Allow..., each with an evaluation of one entry (`eval_...`) and
--                       the method on the store (`allow_...`); their children are proofs, with
--                       Memory.SlidingCounter.Estimate as the estimate of docs/algorithms.md
--   Memory.Legacy       Get, Set, Increment
--   Memory.Cleanup      removeExpired; Memory.Cleanup.Goroutine is the goroutine that runs it
--   Memory.Backend      the memory store as a Store
--   Fallback            store/fallback.go; `failover` is the body that the four evaluations share
--   Limiter             limiter.go; Limiter.TokenBucket and its three siblings are limiters.go,
--                       Limiter.Any is the interface Limiter
--   Options             options.go
--   Keys                keys.go
--   Middleware          middleware/middleware.go, and the chain of checks that the five adapters share
--                       (`guarded`); Middleware.Stdlib, Chi, Gin, Echo and Fiber are the files of
--                       middleware/, each with its configuration, its own calls (`adapter`), its
--                       handler and its key functions; Middleware.Any is the five as one;
--                       Middleware.Served is which requests the frameworks serve; Verdict, Quota,
--                       Headers and Bypass are proofs
--   Redis               store/redis.go: the methods of Redis over a client; Redis.Commands are the
--                       commands of a server, Redis.Sets and Redis.Hashes those on sorted sets and
--                       on hashes; Redis.Scripts is fwScript over them, and its children Bucket,
--                       Counter and Log are tbScript, swcScript and swlScript; Redis.Server is a
--                       client whose server runs them; Resetting, FixedWindow, SlidingCounter,
--                       SlidingLog and TokenBucket are proofs
--   Tests               the theorems at concrete inputs
--
-- State: a method that changes an object takes and returns it. A method that reads the clock takes
-- the readings that are left (`Clock`), uses the first and returns the rest, so that every theorem
-- holds whatever the readings are, or names the ones that it needs. The mutex of a shard makes every
-- method of the memory store one step; sequences of calls are lists of requests or of calls. One
-- number stands for both the wall clock and the monotonic clock of a reading.
--
-- Numbers: int64 sums, differences and products wrap around where the code's do. The theorems on
-- windows hold from 1970 to 2262, where an instant in nanoseconds is an int64, and for requests that
-- do not leave the range of int64 together with the limit. float64 is a parameter: the theorems on
-- the token bucket and the sliding window counter take the laws of IEEE 754 arithmetic that they use
-- as a record, IsFloat64, which exact integers meet.
--
-- Loops: the loops over strings, logs and options are structural recursion. The loop over the 64
-- shards of a cleanup recurs on the shards to go. The loop of the Redis store's Reset runs on fuel,
-- the largest number of rounds, and needs as many as the server's scan has calls. The digits
-- of a number are at most 19, which is enough for an int64.
--
-- HTTP: the response is the list of the calls that a handler makes, in order, the call of the next
-- handler among them. Gin, as it documents, runs the handlers that are left also when a handler
-- returns, unless it has aborted; the other frameworks do only when it calls the next one. The lookups of headers, parameters and client addresses that a framework
-- offers are fields of the request.
--
-- Redis: a server is its data, its clock and the commands that the scripts call, each with what
-- Redis documents of it (`IsRedis`, `HasSets`, `HasHashes`). The client hands a script to the server,
-- which runs it, if the numbers are exact in Lua (`Serves`, `ServesCounter`, `ServesBucket`). The
-- integers of a script are within 2^53, where a number of Lua is exact, and a number that becomes
-- text has 14 digits at most. What is read of a key is its value and its deadline; that the server
-- drops a key after its deadline by itself cannot be seen through the commands. How far the server's
-- clock may be from the caller's is a hypothesis of each theorem.
--
-- Not modelled: the Redis client, the server and JSON, which are parameters; the wording of the
-- errors of parseEvalResult; the aliases in algorithms/; the ticker's period, since the goroutine of
-- a cleanup may run at any time; and the examples.
pub mod Prelude
pub mod Go
pub mod Circuit
pub mod Store
pub mod Memory
pub mod Fallback
pub mod Limiter
pub mod Keys
pub mod Middleware
pub mod Redis
pub mod Options
pub mod Tests
