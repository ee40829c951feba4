-- ===== src/Go.antt =====
-- What the program uses of Go: the pair of a value and an error, contexts, the clock, instants and
-- durations (time), float64, strings (strings, strconv), addresses (net) and requests (net/http).
mod Errors
pub mod Time
pub mod Float
pub mod Text
pub mod Address
pub mod Http
pub use Errors.*
