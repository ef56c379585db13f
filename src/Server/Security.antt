-- ===== src/Server/Security.antt =====
-- api/server.go, middleware/middleware.go: what holds of every response of the server.
use managed_services_lib.Common.{
  String, ◌≡◌, ◌≢◌, refl, ◌⊎◌, true, false, Option, some, List, [], ◌∷◌, ◌++◌, ◌==◌, eq_iff, arith,
  if◌then◌else◌,
}
use managed_services_lib.Common.StringMap.{StringMap, lookup, put}
use managed_services_lib.Config.{Config}
use managed_services_lib.Http.{
  Request, Context, context_of, returned, panicked, error_object, no_payload, error,
}
use managed_services_lib.Middleware.{
  auth, cors, security_headers, logger, error_handler, shown_key, is_health_path, recovered, logged,
}
use managed_services_lib.Server.{Route, endpoint, middlewares, serve}

-- The headers that the middleware sets.
abbrev pub prepared : StringMap String
prepared =
    ("X-Content-Type-Options", "nosniff")
    ∷ ("X-Frame-Options", "DENY")
    ∷ ("X-XSS-Protection", "1; mode=block")
    ∷ ("Referrer-Policy", "strict-origin-when-cross-origin")
    ∷ ("Content-Security-Policy", "default-src 'none'; frame-ancestors 'none'")
    ∷ ("Access-Control-Allow-Origin", "*")
    ∷ ("Access-Control-Allow-Methods", "GET, POST, PATCH, PUT, DELETE, OPTIONS")
    ∷ ("Access-Control-Allow-Headers", "Origin, Content-Type, Authorization, X-API-Key")
    ∷ []

-- The response under construction when a route's handler is reached.
abbrev pub start : {D : Type 0} → Context D
start = record { status = 200; headers = prepared; payload = no_payload; log = [] }

-- The request passes the middleware: it is no preflight, and has the key or needs none.
abbrev pub Passes : Config → Request → Type 0
Passes cfg req =
    (req.method ≢ "OPTIONS")
    × ((cfg.api_key ≡ "") ⊎ (is_health_path req.path ≡ true) ⊎ (shown_key req ≡ cfg.api_key))

module _ {S D : Type 0} (find : List (Route S D) → String → String → Option (Route S D × String))
    (cfg : Config) (providers : StringMap (List (Route S D))) (req : Request) (s : S) where
  -- Without the API key nothing is reached but the health endpoints: if a key is configured, the
  -- request shows another one, and its path is not a health path, then no route is served and the
  -- world is unchanged. The answer is 401, or 204 to a CORS preflight.
  pub serve_unauthenticated :
      cfg.api_key ≢ ""
      → shown_key req ≢ cfg.api_key
      → is_health_path req.path ≡ false
      → ((serve find cfg providers req s).1 ≡ s)
        × ((context_of (serve find cfg providers req s).0).status
            ≡ (if req.method == "OPTIONS" then 204 else 401))
  unfolding serve middlewares error_handler logger security_headers cors auth
  serve_unauthenticated key wrong path =
      ground (arith, path, eq_iff cfg.api_key "", eq_iff (shown_key req) cfg.api_key)

  -- An `OPTIONS` request, a CORS preflight, is answered with 204 and reaches no route, whatever key is
  -- configured and shown.
  pub serve_preflight :
      req.method ≡ "OPTIONS"
      → ((serve find cfg providers req s).1 ≡ s)
        × ((context_of (serve find cfg providers req s).0).status ≡ 204)
  unfolding serve middlewares error_handler logger security_headers cors
  serve_preflight h = ground (arith, eq_iff req.method "OPTIONS")

  serve-prepared :
      ((c : Context D) (t : S)
        → (context_of (endpoint find providers req c t).0).headers ≡ c.headers)
      → (context_of (serve find cfg providers req s).0).headers ≡ prepared
  unfolding serve middlewares error_handler logger security_headers cors auth put
  serve-prepared keep = ground (arith, keep start s)

  -- Every response of the chain, whatever the method, the key and the route, carries the five security
  -- headers and the three CORS headers with the values of the middleware, if the handler of the route
  -- leaves the headers alone; it does so after a panic of the handler too.
  pub serve_headers :
      ((c : Context D) (t : S)
        → (context_of (endpoint find providers req c t).0).headers ≡ c.headers)
      → (lookup "X-Content-Type-Options" (context_of (serve find cfg providers req s).0).headers
          ≡ some "nosniff")
        × (lookup "X-Frame-Options" (context_of (serve find cfg providers req s).0).headers
            ≡ some "DENY")
        × (lookup "X-XSS-Protection" (context_of (serve find cfg providers req s).0).headers
            ≡ some "1; mode=block")
        × (lookup "Referrer-Policy" (context_of (serve find cfg providers req s).0).headers
            ≡ some "strict-origin-when-cross-origin")
        × (lookup "Content-Security-Policy" (context_of (serve find cfg providers req s).0).headers
            ≡ some "default-src 'none'; frame-ancestors 'none'")
        × (lookup "Access-Control-Allow-Origin"
              (context_of (serve find cfg providers req s).0).headers
            ≡ some "*")
        × (lookup "Access-Control-Allow-Methods"
              (context_of (serve find cfg providers req s).0).headers
            ≡ some "GET, POST, PATCH, PUT, DELETE, OPTIONS")
        × (lookup "Access-Control-Allow-Headers"
              (context_of (serve find cfg providers req s).0).headers
            ≡ some "Origin, Content-Type, Authorization, X-API-Key")
  serve_headers keep =
      rw (serve-prepared keep) (unfold lookup in (refl, refl, refl, refl, refl, refl, refl, refl))

  pub serve-endpoint :
      Passes cfg req
      → ((serve find cfg providers req s).0
          ≡ recovered req (logged req (endpoint find providers req start s).0))
        × ((serve find cfg providers req s).1 ≡ (endpoint find providers req start s).1)
  unfolding serve middlewares error_handler logger security_headers cors auth put
  serve-endpoint h = ground (
    arith,
    eq_iff req.method "OPTIONS",
    eq_iff cfg.api_key "",
    eq_iff (shown_key req) cfg.api_key,
  )

  -- A panic of a route's handler never leaves the server: the client gets a 500 with a fixed text,
  -- and the log gets the panic, but no line for the request.
  pub serve_panic :
      (m : String) (c : Context D)
      → Passes cfg req
      → (endpoint find providers req start s).0 ≡ panicked m c
      → (serve find cfg providers req s).0
        ≡ returned (record {
          status = 500;
          headers = c.headers;
          payload = error_object "internal server error";
          log =
              c.log
              ++ record {
                level = error;
                msg = "panic recovered";
                attrs = ("panic", m) ∷ ("path", req.path) ∷ ("method", req.method) ∷ [];
              }
                ∷ [];
        })
  serve_panic m c h e = rw ((serve-endpoint h).0, e)
