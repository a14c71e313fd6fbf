-- ===== src/App.antt =====
-- internal/app/app_routes.go: what stands between the server and the handlers. A header map is a
-- function to the values of a name, as `http.Header` is a map to lists.
pub mod Cors
mod Tests
use neo_nect_server.Base.{
  ℕ, Bool, true, false, not, ◌||◌, Option, none, some, String, List, [], ◌∷◌, ◌++◌, ◌==◌, string_eq,
  if◌then◌else◌,
}

-- `deadline` is the timeout of the context and `body_limit` that of `MaxBytesReader`, once they are set.
pub record HttpRequest : Type 0 where
  pub method : String
  pub origin : String
  pub tls : Bool
  pub forwarded_proto : String
  pub deadline : Option ℕ
  pub body_limit : Option ℕ

abbrev pub Headers : Type 0
Headers = String → List String

unfoldable pub set : String → String → Headers → Headers
set name value h x = if x == name then value ∷ [] else h x

unfoldable pub add : String → String → Headers → Headers
add name value h x = if x == name then h x ++ (value ∷ []) else h x

-- An answer, or a panic with the status that was written before it.
pub data Reply : Type 0 where
  replied : ℕ → Headers → Reply
  panicked : Option ℕ → Headers → Reply

abbrev pub Handler : Type 0
Handler = HttpRequest → Headers → Reply

-- `http.Error` of Go's library after a panic; what was written before stands.
unfoldable pub recovered : Reply → Reply
unfolding set
recovered (replied status h) = replied status h
recovered (panicked (some status) h) = replied status h
recovered (panicked none h) =
    replied 500
      (set "X-Content-Type-Options" "nosniff" (set "Content-Type" "text/plain; charset=utf-8" h))

unfoldable pub recover_middleware : Handler → Handler
unfolding recovered
recover_middleware next r h = recovered (next r h)

unfoldable pub timeout_middleware : ℕ → Handler → Handler
timeout_middleware request_context_timeout next r h =
    next (record r { deadline = some request_context_timeout }) h

unfoldable pub headers_middleware : Handler → Handler
unfolding set
headers_middleware next r h = next r (
    set "Referrer-Policy" "same-origin" (
      set "X-Download-Options" "noopen" (
        set "X-XSS-Protection" "1; mode=block"
          (set "X-Frame-Options" "DENY" (set "X-Content-Type-Options" "nosniff" h)))))

-- `api.IsHTTPS`, with `strings.EqualFold`
unfoldable pub is_https : (String → String → Bool) → HttpRequest → Bool
is_https equal_fold r = r.tls || equal_fold r.forwarded_proto "https"

unfoldable pub hsts_middleware : (String → String → Bool) → Handler → Handler
unfolding set is_https
hsts_middleware equal_fold next r h = next r (
    if is_https equal_fold r
    then set "Strict-Transport-Security" "max-age=31536000; includeSubDomains" h
    else h)

-- the loop over the allowed origins: `isExact` and `isWildcard`
unfoldable pub match_origin : String → Bool → List String → Bool × Bool
match_origin origin is_wildcard [] = (false, is_wildcard)
match_origin origin is_wildcard (o ∷ allowed) =
    let rest = match_origin origin (is_wildcard || o == "*") allowed in
    if o == origin then (true, is_wildcard) else rest

unfoldable pub allow_origin : String → Bool × Bool → Headers → Headers
unfolding set
allow_origin origin (is_exact, is_wildcard) h =
    if is_exact
    then (set "Access-Control-Allow-Credentials" "true"
        (set "Access-Control-Allow-Origin" origin h))
    else if is_wildcard
    then set "Access-Control-Allow-Origin" "*" h
    else h

unfoldable pub cors_headers : List String → String → Headers → Headers
unfolding add allow_origin match_origin set
cors_headers allowed_origins origin h =
    let varied = add "Vary" "Origin" h in
    let allowed =
      if not (origin == "")
      then allow_origin origin (match_origin origin false allowed_origins) varied
      else varied in
    set "Access-Control-Allow-Headers" "Content-Type, Authorization"
      (set "Access-Control-Allow-Methods" "GET, POST, PUT, DELETE, OPTIONS" allowed)

unfoldable pub cors_middleware : List String → Handler → Handler
unfolding cors_headers
cors_middleware allowed_origins next r h =
    let h' = cors_headers allowed_origins r.origin h in
    if r.method == "OPTIONS" then replied 200 h' else next r h'

unfoldable pub body_limit_middleware : ℕ → Handler → Handler
body_limit_middleware http_max_body_bytes next r h =
    if r.method == "POST" || r.method == "PUT" || r.method == "PATCH" || r.method == "DELETE"
    then next (record r { body_limit = some http_max_body_bytes }) h
    else next r h

-- The body of the answer is that of a refused method.
unfoldable pub with_method : String → Handler → Handler
unfolding set
with_method method handler r h =
    if not (r.method == method)
    then replied 405 (set "Content-Type" "application/json" h)
    else handler r h

-- the chain that `app_init.go` makes around the rate limiter and the routes, which are `next`
unfoldable pub chain : (String → String → Bool) → ℕ → ℕ → List String → Handler → Handler
unfolding recover_middleware timeout_middleware headers_middleware cors_middleware
    body_limit_middleware hsts_middleware
chain equal_fold request_context_timeout http_max_body_bytes allowed_origins next =
    recover_middleware (
      timeout_middleware request_context_timeout (
        headers_middleware (
          cors_middleware allowed_origins
            (body_limit_middleware http_max_body_bytes (hsts_middleware equal_fold next)))))
