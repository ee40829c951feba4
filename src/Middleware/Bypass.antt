-- ===== src/Middleware/Bypass.antt =====
-- middleware/stdlib.go, chi.go, gin.go over keys.go: a forwarded address that is blank.
use rateshield.Prelude.{◌≡◌, refl, none, Bytes, [], ◌∷◌, ◌++◌}
use rateshield.Go.{Context}
use rateshield.Go.Float.{Float64}
use rateshield.Go.Http.{HttpRequest}
use rateshield.Go.Text.{bytes, index, trim_space, index-append, take-length}
use rateshield.Go.Time.{Clock}
use rateshield.Keys.{key_by_ip}
use rateshield.Limiter.Any.{Limiter, store_of}
use rateshield.Middleware.{call_next, guarded}
use rateshield.Middleware.Stdlib.{stdlib_simple}
use rateshield.Middleware.Chi.{chi_simple}
use rateshield.Middleware.Gin.{gin_simple}

-- KeyByIP takes the first address of the list, and does not look further if it is blank.
key_by_ip-blank :
    (r : HttpRequest) (blank rest : Bytes)
    → r.header (bytes "X-Forwarded-For") ≡ blank ++ b',' ∷ rest
    → index b',' blank ≡ none
    → trim_space blank ≡ []
    → key_by_ip r ≡ []
unfolding key_by_ip
key_by_ip-blank r [] rest e h b = rw (e, index-append b',' [] rest h) b
key_by_ip-blank r (c ∷ blank) rest e h b =
    rw (e, index-append b',' (c ∷ blank) rest h, take-length (c ∷ blank) (b',' ∷ rest)) b

-- A request whose header X-Forwarded-For has a blank before its first comma is handed on by the
-- middleware for net/http, Chi and Gin, each with its defaults, whatever the limiter and the state of
-- its store are; the store is not asked.
pub blank_forwarding_bypasses_limit :
    {F : Type 0} ⦃fl : Float64 F⦄ (limiter : Limiter F) (ctx : Context) (r : HttpRequest)
    (blank rest : Bytes) (clock : Clock) (st : (store_of limiter).S)
    → r.header (bytes "X-Forwarded-For") ≡ blank ++ b',' ∷ rest
    → index b',' blank ≡ none
    → trim_space blank ≡ []
    → (stdlib_simple limiter ctx r clock st ≡ (call_next ∷ [], st, clock))
      × (chi_simple limiter ctx r clock st ≡ (call_next ∷ [], st, clock))
      × (gin_simple limiter ctx r clock st ≡ (call_next ∷ [], st, clock))
unfolding stdlib_simple chi_simple gin_simple guarded
blank_forwarding_bypasses_limit limiter ctx r blank rest clock st e h b =
    let no_key = key_by_ip-blank r blank rest e h b in
    (rw no_key refl, rw no_key refl, rw no_key refl)
