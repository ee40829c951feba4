-- ===== src/Go/Http.antt =====
-- What the program reads of an HTTP request: the header lookup of net/http, the lookup of a query
-- parameter, the method, the path of the URL and the address of the connection.
use rateshield.Prelude.{Bytes}

pub record HttpRequest : Type 0 where
  pub header : Bytes → Bytes
  pub query : Bytes → Bytes
  pub method : Bytes
  pub path : Bytes
  pub remote_addr : Bytes
