-- ===== src/Tests/Requests.antt =====
-- The server, its errors and its configuration on concrete requests.
use managed_services_lib.Common.{
  ℕ, ◌≤◌, ◌<◌, String, ◌≡◌, ◌≢◌, refl, inr, false, Option, some, List, [], ◌∷◌, ◌==◌, eq_iff, arith,
  if◌then◌else◌,
}
use managed_services_lib.Common.Int.{pos}
use managed_services_lib.Common.StringMap.{lookup}
use managed_services_lib.Common.Decimal.{show_int}
use managed_services_lib.Config.{Config, load}
use managed_services_lib.Config.Port.{load-port}
use managed_services_lib.Failure.{sentinel, message, conflict}
use managed_services_lib.Http.{
  Request, Context, returned, panicked, context_of, error_object, error,
}
use managed_services_lib.Middleware.{shown_key, is_health_path}
use managed_services_lib.Server.{Route, endpoint, serve}
use managed_services_lib.Server.Security.{
  prepared, start, Passes, serve_unauthenticated, serve_headers, serve_panic,
}
use managed_services_lib.Routes.Errors.{answer}
use managed_services_lib.Routes.Errors.Answers.{is_domain, answer_safe}

-- The configuration.

abbrev pub settings : Config
settings = record { port = pos 8080; api_key = "key"; kubeconfig = ""; environment = "production" }

load-port_example : (load (λ name. show_int (pos 9090))).port ≡ pos 9090
load-port_example = load-port (λ name. show_int (pos 9090)) (pos 9090) (omega arith) refl

-- The server: a world that is a number, and one route whose handler panics.

abbrev pub request : String → String → String → Request
request method path key = record {
  method = method;
  path = path;
  raw_query = "";
  ids = [];
  header = λ name. if name == "X-API-Key" then key else "";
  client_ip = "10.0.0.1";
  body = "{}";
}

abbrev broken : Route ℕ String
broken = record {
  method = "GET";
  pattern = "/broken";
  handler = λ id req c s. (panicked "boom" c, 1);
}

abbrev find : List (Route ℕ String) → String → String → Option (Route ℕ String × String)
find routes method path = some (broken, "")

abbrev guarded : Request
guarded = request "GET" "/api/v1/pg" "wrong"

abbrev admitted : Request
admitted = request "GET" "/api/v1/pg" "key"

guarded-shown : shown_key guarded ≡ "wrong"
unfolding shown_key
guarded-shown = refl

guarded-path : is_health_path guarded.path ≡ false
unfolding is_health_path
guarded-path = refl

guarded-wrong : shown_key guarded ≢ settings.api_key
guarded-wrong = ground (arith, guarded-shown, eq_iff "wrong" "key")

serve_unauthenticated_example :
    ((serve find settings [] guarded 0).1 ≡ 0)
    × ((context_of (serve find settings [] guarded 0).0).status
        ≡ (if guarded.method == "OPTIONS" then 204 else 401))
serve_unauthenticated_example =
    serve_unauthenticated find settings [] guarded 0 (ground (arith, eq_iff "key" "")) guarded-wrong
      guarded-path

endpoint-broken :
    (c : Context String) (n : ℕ) → (endpoint find [] admitted c n).0 ≡ panicked "boom" c
unfolding endpoint
endpoint-broken c n = refl

endpoint-keeps :
    (c : Context String) (n : ℕ)
    → (context_of (endpoint find [] admitted c n).0).headers ≡ c.headers
endpoint-keeps c n = rw (endpoint-broken c n)

serve_headers_example :
    (lookup "X-Content-Type-Options" (context_of (serve find settings [] admitted 0).0).headers
      ≡ some "nosniff")
    × (lookup "X-Frame-Options" (context_of (serve find settings [] admitted 0).0).headers
        ≡ some "DENY")
    × (lookup "X-XSS-Protection" (context_of (serve find settings [] admitted 0).0).headers
        ≡ some "1; mode=block")
    × (lookup "Referrer-Policy" (context_of (serve find settings [] admitted 0).0).headers
        ≡ some "strict-origin-when-cross-origin")
    × (lookup "Content-Security-Policy" (context_of (serve find settings [] admitted 0).0).headers
        ≡ some "default-src 'none'; frame-ancestors 'none'")
    × (lookup "Access-Control-Allow-Origin"
          (context_of (serve find settings [] admitted 0).0).headers
        ≡ some "*")
    × (lookup "Access-Control-Allow-Methods"
          (context_of (serve find settings [] admitted 0).0).headers
        ≡ some "GET, POST, PATCH, PUT, DELETE, OPTIONS")
    × (lookup "Access-Control-Allow-Headers"
          (context_of (serve find settings [] admitted 0).0).headers
        ≡ some "Origin, Content-Type, Authorization, X-API-Key")
serve_headers_example = serve_headers find settings [] admitted 0 endpoint-keeps

admitted-shown : shown_key admitted ≡ "key"
unfolding shown_key
admitted-shown = refl

admitted-Passes : Passes settings admitted
admitted-Passes = (ground (arith, eq_iff "GET" "OPTIONS"), inr (inr admitted-shown))

serve_panic_example :
    (serve find settings [] admitted 0).0
    ≡ returned (record {
      status = 500;
      headers = prepared;
      payload = error_object "internal server error";
      log =
          record {
            level = error;
            msg = "panic recovered";
            attrs = ("panic", "boom") ∷ ("path", "/api/v1/pg") ∷ ("method", "GET") ∷ [];
          }
          ∷ [];
    })
serve_panic_example =
    serve_panic find settings [] admitted 0 "boom" start admitted-Passes (endpoint-broken start 0)

answer_safe_example :
    (400 ≤ (answer (sentinel conflict)).code)
    × ((answer (sentinel conflict)).code < 600)
    × ((answer (sentinel conflict)).code ≡ (answer (sentinel conflict)).code)
    × ((answer (sentinel conflict)).text ≡ (
        if is_domain (sentinel conflict)
        then message (sentinel conflict)
        else (answer (sentinel conflict)).text))
answer_safe_example = answer_safe (sentinel conflict) (sentinel conflict) (λ t. refl)
