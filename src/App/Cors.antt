-- ===== src/App/Cors.antt =====
-- internal/app/app_routes.go: which origins a browser may read an answer from, and with credentials.
use neo_nect_server.Base.{
  ℕ, ◌≡◌, refl, ◌∙◌, Bool, false, not, ◌&&◌, ◌||◌, none, some, String, List, [], ◌∷◌, ◌==◌,
  string_eq, any, arith, Bool-cases, inl, inr, if◌then◌else◌,
}
use neo_nect_server.App.{
  HttpRequest, Headers, set, add, Reply, replied, panicked, Handler, recovered, match_origin,
  allow_origin, is_https, cors_headers, cors_middleware, recover_middleware, timeout_middleware,
  headers_middleware, body_limit_middleware, hsts_middleware, chain,
}

abbrev pub credentials : String
credentials = "Access-Control-Allow-Credentials"

abbrev pub allowed_origin : String
allowed_origin = "Access-Control-Allow-Origin"

abbrev pub headers_of : Reply → Headers
headers_of (replied status h) = h
headers_of (panicked status h) = h

match_origin-exact :
    (origin : String) (w : Bool) (allowed : List String)
    → (match_origin origin w allowed).0 ≡ any (λ o. o == origin) allowed
unfolding match_origin any
match_origin-exact origin w [] = refl
match_origin-exact origin w (o ∷ allowed) =
    ground (arith, match_origin-exact origin (w || o == "*") allowed)

match_origin-wildcard :
    (origin : String) (w : Bool) (allowed : List String)
    → any (λ o. o == origin) allowed ≡ false
    → (match_origin origin w allowed).1 ≡ (w || any (λ o. o == "*") allowed)
unfolding match_origin any
match_origin-wildcard origin w [] h = ground arith
match_origin-wildcard origin w (o ∷ allowed) h =
    ground (arith, match_origin-wildcard origin (w || o == "*") allowed)

abbrev pub is_listed : List String → String → Bool
is_listed allowed origin = not (origin == "") && any (λ o. o == origin) allowed

abbrev pub is_any : List String → String → Bool
is_any allowed origin = not (origin == "") && any (λ o. o == "*") allowed

cors_headers-credentials :
    (allowed : List String) (origin : String) (h : Headers)
    → cors_headers allowed origin h credentials
      ≡ (if is_listed allowed origin then "true" ∷ [] else h credentials)
unfolding cors_headers set add allow_origin
cors_headers-credentials allowed origin h = ground (arith, match_origin-exact origin false allowed)

cors_headers-allowed_origin :
    (allowed : List String) (origin : String) (h : Headers)
    → cors_headers allowed origin h allowed_origin ≡ (
        if is_listed allowed origin
        then origin ∷ []
        else if is_any allowed origin
        then "*" ∷ []
        else h allowed_origin)
unfolding cors_headers set add allow_origin
cors_headers-allowed_origin allowed origin h =
    ground
      (arith, match_origin-exact origin false allowed, match_origin-wildcard origin false allowed)

-- A handler sets neither of the two headers.
abbrev pub Leaves : Handler → Type 0
Leaves next =
    (r : HttpRequest) (h : Headers)
    → (headers_of (next r h) credentials ≡ h credentials)
      × (headers_of (next r h) allowed_origin ≡ h allowed_origin)

hsts_middleware-Leaves :
    (equal_fold : String → String → Bool) (next : Handler)
    → Leaves next
    → Leaves (hsts_middleware equal_fold next)
unfolding hsts_middleware set
hsts_middleware-Leaves equal_fold next leaves r h = elim (Bool-cases (is_https equal_fold r)) [
  | inl secure ↦
      rw secure (leaves r (set "Strict-Transport-Security" "max-age=31536000; includeSubDomains" h))
  | inr plain ↦ rw plain (leaves r h)
]

body_limit_middleware-Leaves :
    (limit : ℕ) (next : Handler) → Leaves next → Leaves (body_limit_middleware limit next)
unfolding body_limit_middleware
body_limit_middleware-Leaves limit next leaves r h =
    elim (Bool-cases
      (r.method == "POST" || r.method == "PUT" || r.method == "PATCH" || r.method == "DELETE")) [
        | inl limited ↦ rw limited (leaves (record r { body_limit = some limit }) h)
        | inr free ↦ rw free (leaves r h)
      ]

recovered-Leaves :
    (x : Reply)
    → (headers_of (recovered x) credentials ≡ headers_of x credentials)
      × (headers_of (recovered x) allowed_origin ≡ headers_of x allowed_origin)
unfolding recovered set
recovered-Leaves (replied status h) = (refl, refl)
recovered-Leaves (panicked none h) = (refl, refl)
recovered-Leaves (panicked (some status) h) = (refl, refl)

cors_middleware-headers :
    (allowed : List String) (next : Handler) (r : HttpRequest) (h : Headers)
    → Leaves next
    → (headers_of (cors_middleware allowed next r h) credentials
        ≡ cors_headers allowed r.origin h credentials)
      × (headers_of (cors_middleware allowed next r h) allowed_origin
          ≡ cors_headers allowed r.origin h allowed_origin)
unfolding cors_middleware
cors_middleware-headers allowed next r h leaves = elim (Bool-cases (r.method == "OPTIONS")) [
  | inl preflight ↦ rw preflight (refl, refl)
  | inr request ↦ rw request (leaves r (cors_headers allowed r.origin h))
]

-- Whatever the request, behind the whole chain of middlewares and around handlers that set neither
-- header themselves: an answer allows credentials exactly to an origin that is listed by name, and
-- names that origin; to another origin it names any origin if the list has the wildcard, and no origin
-- if not. Answers to a preflight and after a panic included.
pub chain-cors_exact :
    (equal_fold : String → String → Bool) (timeout limit : ℕ) (allowed : List String)
    (next : Handler) (r : HttpRequest)
    → Leaves next
    → (headers_of (chain equal_fold timeout limit allowed next r (λ _. [])) credentials
        ≡ (if is_listed allowed r.origin then "true" ∷ [] else []))
      × (headers_of (chain equal_fold timeout limit allowed next r (λ _. [])) allowed_origin ≡ (
          if is_listed allowed r.origin
          then r.origin ∷ []
          else if is_any allowed r.origin
          then "*" ∷ []
          else []))
unfolding chain recover_middleware timeout_middleware headers_middleware set
chain-cors_exact equal_fold timeout limit allowed next r leaves =
    let inner = body_limit_middleware limit (hsts_middleware equal_fold next) in
    let inner_leaves : Leaves inner =
      body_limit_middleware-Leaves limit (hsts_middleware equal_fold next)
        (hsts_middleware-Leaves equal_fold next leaves) in
    let r' : HttpRequest = record r { deadline = some timeout } in
    let h : Headers = set "Referrer-Policy" "same-origin" (
      set "X-Download-Options" "noopen" (
        set "X-XSS-Protection" "1; mode=block"
          (set "X-Frame-Options" "DENY" (set "X-Content-Type-Options" "nosniff" (λ _. []))))) in
    let back = recovered-Leaves (cors_middleware allowed inner r' h) in
    let through = cors_middleware-headers allowed inner r' h inner_leaves in
    (
      back.0 ∙ through.0 ∙ cors_headers-credentials allowed r.origin h,
      back.1 ∙ through.1 ∙ cors_headers-allowed_origin allowed r.origin h,
    )
