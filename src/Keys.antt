-- ===== src/Keys.antt =====
-- keys.go: the functions that take the key of a request.
use rateshield.Prelude.{ℕ, Bytes, Option, none, some, List, [], ◌∷◌, ◌++◌}
use rateshield.Go.Text.{bytes, index, take, trim_space}
use rateshield.Go.Address.{split_host}
use rateshield.Go.Http.{HttpRequest}
pub mod Connections
pub mod Endpoints

abbrev pub KeyExtractor : Type 0
KeyExtractor = HttpRequest → Bytes

-- `if value != "" { ... }`
abbrev pub or_else : {A : Type 0} → Bytes → A → (Bytes → A) → A
or_else [] other use_value = other
or_else (c ∷ s) other use_value = use_value (c ∷ s)

-- the host of an address, or the whole address if it cannot be taken apart
host_or : Bytes → Option Bytes → Bytes
host_or addr none = addr
host_or addr (some ip) = ip

-- the first element of a list that is separated by commas
first_of : Bytes → Option ℕ → Bytes
first_of xff none = xff
first_of xff (some idx) = take idx xff

-- KeyByRealIP
unfoldable pub key_by_real_ip : KeyExtractor
unfolding host_or
key_by_real_ip r = host_or r.remote_addr (split_host r.remote_addr)

-- KeyByIP
unfoldable pub key_by_ip : KeyExtractor
unfolding first_of host_or
key_by_ip r =
    or_else (r.header (bytes "X-Forwarded-For"))
      (or_else (r.header (bytes "X-Real-IP")) (host_or r.remote_addr (split_host r.remote_addr))
        (λ xri. trim_space xri))
      (λ xff. trim_space (first_of xff (index b',' xff)))

unfoldable pub key_by_header : Bytes → KeyExtractor
key_by_header header r = r.header header

unfoldable pub key_by_endpoint : KeyExtractor
key_by_endpoint r = r.method ++ b':' ∷ r.path

unfoldable pub key_by_ip_and_endpoint : KeyExtractor
unfolding key_by_ip key_by_endpoint
key_by_ip_and_endpoint r = key_by_ip r ++ b':' ∷ key_by_endpoint r

unfoldable pub key_by_user_id : Bytes → KeyExtractor
unfolding key_by_ip
key_by_user_id header r =
    or_else (r.header header) (key_by_ip r) (λ user_id. bytes "user:" ++ user_id)

unfoldable pub key_by_user_and_endpoint : Bytes → KeyExtractor
unfolding key_by_ip
key_by_user_and_endpoint user_header r =
    let user_id = or_else (r.header user_header) (key_by_ip r) (λ id. id) in
    user_id ++ b':' ∷ r.method ++ b':' ∷ r.path
