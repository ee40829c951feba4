-- ===== src/Keys/Connections.antt =====
-- keys.go: the key of a connection is its host, whatever its port is.
use rateshield.Prelude.{◌≡◌, refl, none, Bytes, []}
use rateshield.Go.Text.{index}
use rateshield.Go.Address.{NoBracket, join_host_port, split_host-join_host_port}
use rateshield.Go.Http.{HttpRequest}
use rateshield.Keys.{key_by_real_ip, key_by_ip}

-- For a connection from any host and port without brackets, the port without colons, KeyByRealIP
-- returns the host, whatever the headers are, and KeyByIP does for a request without headers.
pub connection_key_is_host :
    (r : HttpRequest) (host port : Bytes)
    → NoBracket host
    → NoBracket port
    → index b':' port ≡ none
    → (key_by_real_ip (record r { remote_addr = join_host_port host port }) ≡ host)
      × (key_by_ip (record r { header = λ _. []; remote_addr = join_host_port host port }) ≡ host)
unfolding key_by_real_ip key_by_ip
connection_key_is_host r host port h p pc =
    let split = split_host-join_host_port host port h p pc in (rw split refl, rw split refl)
