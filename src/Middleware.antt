-- ===== src/Middleware.antt =====
-- middleware/middleware.go. A middleware gets the rest of the chain: calling it is `c.Next()`, and
-- not calling it is `c.Abort…`. Reading the clock for the latency is left out.
use managed_services_lib.Common.{
  ℕ, String, code, Bool, true, false, not, ◌&&◌, ◌||◌, List, [], ◌∷◌, ◌==◌, nat_eq, leb,
  if◌then◌else◌,
}
use managed_services_lib.Common.Decimal.{decimal}
use managed_services_lib.Http.{
  Request, Finish, returned, panicked, Handler, json, set_status, set_header, log_entry,
  error_object, Level, info, warn, error,
}

-- `strings.HasPrefix` and `strings.TrimPrefix`
unfoldable pub has_prefix : String → String → Bool
has_prefix s String.[] = true
has_prefix String.[] (String.◌∷◌ d p) = false
has_prefix (String.◌∷◌ c s) (String.◌∷◌ d p) = nat_eq (code c) (code d) && has_prefix s p

drop_prefix : String → String → String
drop_prefix s String.[] = s
drop_prefix String.[] (String.◌∷◌ d p) = String.[]
drop_prefix (String.◌∷◌ c s) (String.◌∷◌ d p) = drop_prefix s p

unfoldable pub trim_prefix : String → String → String
unfolding has_prefix drop_prefix
trim_prefix s p = if has_prefix s p then drop_prefix s p else s

-- The key that a request shows: `X-API-Key`, else `Authorization` with or without `Bearer `.
unfoldable pub shown_key : Request → String
unfolding trim_prefix
shown_key req =
    let key = req.header "X-API-Key" in
    let auth = req.header "Authorization" in
    if key == ""
    then (if has_prefix auth "Bearer " then trim_prefix auth "Bearer " else auth)
    else key

-- `subtle.ConstantTimeCompare(x, y) != 1` is that the bytes differ.
abbrev differs : String → String → Bool
differs x y = not (x == y)

unfoldable pub is_health_path : String → Bool
is_health_path path = path == "/health" || path == "/ready"

abbrev pub Middleware : Type 0 → Type 0 → Type 0
Middleware S D = Request → Handler S D → Handler S D

abbrev level_of : ℕ → Level
level_of status = if leb 500 status then error else if leb 400 status then warn else info

-- The handlers never call `c.Error`, so that `c.Errors` is empty.
abbrev request_attrs : Request → ℕ → List (String × String)
request_attrs req status =
    ("method", req.method)
    ∷ ("path", req.path)
    ∷ ("status", decimal 1 status)
    ∷ ("ip", req.client_ip)
    ∷ (if not (req.raw_query == "") then ("query", req.raw_query) ∷ [] else [])

abbrev pub logged : {D : Type 0} → Request → Finish D → Finish D
logged req (returned c) =
    returned (log_entry (level_of c.status) "HTTP request" (request_attrs req c.status) c)
logged req (panicked m c) = panicked m c

abbrev pub recovered : {D : Type 0} → Request → Finish D → Finish D
recovered req (returned c) = returned c
recovered req (panicked m c) = returned (
    json 500 (error_object "internal server error") (
      log_entry error "panic recovered"
        (("panic", m) ∷ ("path", req.path) ∷ ("method", req.method) ∷ []) c))

module _ {S D : Type 0} where
  unfoldable pub auth : String → Middleware S D
  auth api_key req next c s =
      if is_health_path req.path
      then next c s
      else if differs (shown_key req) api_key
      then (returned (json 401 (error_object "unauthorized") c), s)
      else next c s

  unfoldable pub cors : Middleware S D
  cors req next c s =
      let c' =
        set_header "Access-Control-Allow-Headers" "Origin, Content-Type, Authorization, X-API-Key" (
          set_header "Access-Control-Allow-Methods" "GET, POST, PATCH, PUT, DELETE, OPTIONS"
            (set_header "Access-Control-Allow-Origin" "*" c)) in
      if req.method == "OPTIONS" then (returned (set_status 204 c'), s) else next c' s

  unfoldable pub security_headers : Middleware S D
  security_headers req next c s =
      next
        (set_header "Content-Security-Policy" "default-src 'none'; frame-ancestors 'none'" (
          set_header "Referrer-Policy" "strict-origin-when-cross-origin" (
            set_header "X-XSS-Protection" "1; mode=block" (
              set_header "X-Frame-Options" "DENY"
                (set_header "X-Content-Type-Options" "nosniff" c)))))
        s

  -- A panic passes through: nothing is logged after `c.Next()`.
  unfoldable pub logger : Middleware S D
  logger req next c s = let (f, s') = next c s in (logged req f, s')

  unfoldable pub error_handler : Middleware S D
  error_handler req next c s = let (f, s') = next c s in (recovered req f, s')

  unfoldable pub not_found : Request → Handler S D
  not_found req c s = (returned (json 404 (error_object "not found") c), s)
