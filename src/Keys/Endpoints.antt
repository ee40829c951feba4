-- ===== src/Keys/Endpoints.antt =====
-- keys.go: the keys of different endpoints are different.
use rateshield.Prelude.{ℕ, ◌≡◌, sym, ap, ◌∙◌, Bytes, none, some, ◌∷◌, ◌++◌, length, drop}
use rateshield.Go.Text.{index, take, take-length, drop-length, index-append}
use rateshield.Go.Http.{HttpRequest}
use rateshield.Keys.{key_by_endpoint}

-- Two texts that are joined by a separator which the first does not hold are read back.
joined_parts :
    (c : ℕ) (s s' t t' : Bytes)
    → index c s ≡ none
    → index c s' ≡ none
    → s ++ c ∷ t ≡ s' ++ c ∷ t'
    → (s ≡ s') × (t ≡ t')
joined_parts c s s' t t' h h' e =
    let same_place : some (length s) ≡ some (length s') =
      sym (index-append c s t h) ∙ ap (index c) e ∙ index-append c s' t' h' in
    let n : length s ≡ length s' = cc in
    let first : s ≡ s' =
      sym (take-length s (c ∷ t)) ∙ ap (take (length s)) e ∙ rw n (take-length s' (c ∷ t')) in
    let second : c ∷ t ≡ c ∷ t' =
      sym (drop-length s (c ∷ t)) ∙ ap (drop (length s)) e ∙ rw n (drop-length s' (c ∷ t')) in
    (first, cc)

-- Two requests whose methods hold no colon have the same key by endpoint only if they have the same
-- method and the same path.
pub endpoint_keys_differ :
    (r r' : HttpRequest)
    → index b':' r.method ≡ none
    → index b':' r'.method ≡ none
    → key_by_endpoint r ≡ key_by_endpoint r'
    → (r.method ≡ r'.method) × (r.path ≡ r'.path)
unfolding key_by_endpoint
endpoint_keys_differ r r' h h' e = joined_parts b':' r.method r'.method r.path r'.path h h' e
