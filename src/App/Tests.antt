-- ===== src/App/Tests.antt =====
-- Runs of the middlewares of internal/app/app_routes.go.
use neo_nect_server.Base.{◌≡◌, refl, Bool, false, none, String, List, [], ◌∷◌, ◌==◌, string_eq, any}
use neo_nect_server.App.{HttpRequest, replied, panicked, Handler, Headers, chain, with_method, set}
use neo_nect_server.App.Cors.{Leaves, headers_of, credentials, allowed_origin, chain-cors_exact}

abbrev page : HttpRequest
page = record {
  method = "GET";
  origin = "https://a.example";
  tls = false;
  forwarded_proto = "";
  deadline = none;
  body_limit = none;
}

abbrev same : String → String → Bool
same a b = a == b

abbrev origins : List String
origins = "*" ∷ "https://a.example" ∷ []

-- a handler that panics before it writes anything
abbrev broken : Handler
broken r h = panicked none h

broken-Leaves : Leaves broken
broken-Leaves r h = (refl, refl)

abbrev none_set : Headers
none_set name = []

wrong_method_refused :
    with_method "POST" broken page none_set
    ≡ replied 405 (set "Content-Type" "application/json" none_set)
unfolding with_method
wrong_method_refused = refl

chain-cors_exact_example :
    (headers_of (chain same 30 4194304 origins broken page (λ _. [])) credentials ≡ "true" ∷ [])
    × (headers_of (chain same 30 4194304 origins broken page (λ _. [])) allowed_origin
        ≡ "https://a.example" ∷ [])
unfolding any
chain-cors_exact_example = chain-cors_exact same 30 4194304 origins broken page broken-Leaves
