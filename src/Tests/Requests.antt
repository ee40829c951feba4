-- ===== src/Tests/Requests.antt =====
-- The keys of requests at concrete addresses and paths.
use rateshield.Prelude.{◌≡◌, refl, []}
use rateshield.Go.Text.{bytes, index}
use rateshield.Go.Address.{join_host_port}
use rateshield.Go.Http.{HttpRequest}
use rateshield.Keys.{key_by_real_ip, key_by_ip}
use rateshield.Keys.Connections.{connection_key_is_host}

-- GET /a from ::1 at port 80
abbrev pub request : HttpRequest
request = record {
  header = λ name. [];
  query = λ name. [];
  method = bytes "GET";
  path = bytes "/a";
  remote_addr = bytes "[::1]:80";
}

connection_key_is_host_example :
    (key_by_real_ip (record request { remote_addr = join_host_port (bytes "::1") (bytes "80") })
      ≡ bytes "::1")
    × (key_by_ip (record request {
      header = λ name. [];
      remote_addr = join_host_port (bytes "::1") (bytes "80");
    })
        ≡ bytes "::1")
unfolding index
connection_key_is_host_example =
    connection_key_is_host request (bytes "::1") (bytes "80")
      (record { no_open = refl; no_close = refl }) (record { no_open = refl; no_close = refl }) refl
