-- ===== src/Server/Table.antt =====
-- api/server.go: the route table, and the health endpoints that it serves to everybody.
use Prim.Native.String as Text
use text.Mathlib.TextLemmas.{cons-append, append_assoc}
use managed_services_lib.Common.{
  ℕ, String, code, ◌≡◌, ◌≢◌, ◌∙◌, refl, Bool-cases, sym, ap, inl, inr, Bool, true, not, ◌&&◌,
  Option, some, List, [], ◌∷◌, ◌++◌, map, All, ◌==◌, eq_iff, arith, nat_eq, if◌then◌else◌,
}
use managed_services_lib.Common.StringMap.{StringMap}
use managed_services_lib.Config.{Config}
use managed_services_lib.Http.{Request, context_of, returned, json, object}
use managed_services_lib.Middleware.{is_health_path}
use managed_services_lib.Server.{
  Route, route, constant, under, endpoint, serve, setup_routes, mount_all,
}
use managed_services_lib.Server.Security.{start, Passes, serve-endpoint}

-- A pattern with no `:` and no `*` matches its own text only.
abbrev pub is_static : String → Bool
is_static String.[] = true
is_static (String.◌∷◌ c s) = not (nat_eq (code c) b':') && not (nat_eq (code c) b'*') && is_static s

module _ {S D : Type 0} where
  -- No route of the list has the pattern.
  abbrev pub Lacks : String → List (Route S D) → Type 0
  Lacks pattern = All (λ r. r.pattern ≢ pattern)

  -- What gin documents of its router: of the routes that it accepts, the only one with a static
  -- pattern serves the path that the pattern spells, before any route with parameters.
  pub record IsRouter (find : List (Route S D) → String → String → Option (Route S D × String))
      : Type 0 where
    pub static :
        (before after : List (Route S D)) (r : Route S D)
        → is_static r.pattern ≡ true
        → Lacks r.pattern before
        → Lacks r.pattern after
        → find (before ++ r ∷ after) r.method r.pattern ≡ some (r, "")

abbrev initial : String → ℕ
initial String.[] = 0
initial (String.◌∷◌ c s) = code c

abbrev second : String → ℕ
second String.[] = 0
second (String.◌∷◌ c s) = initial s

second-api : (s : String) → second (Text.◌++◌ "/api/v1" s) ≡ b'a'
second-api s = ap second (cons-append "/" "api/v1" s) ∙ ap initial (cons-append "a" "pi/v1" s)

-- The patterns of the providers' routes begin with `/api/v1`.
module _ {S D : Type 0} where
  mount-Lacks :
      (path pattern : String) (routes rest : List (Route S D))
      → second pattern ≢ b'a'
      → Lacks pattern rest
      → Lacks pattern (map (under (Text.◌++◌ "/api/v1" (Text.◌++◌ "/" path))) routes ++ rest)
  mount-Lacks path pattern [] rest h lacks = lacks
  mount-Lacks path pattern (r ∷ routes) rest h lacks = (
    λ e.
        let inner : String = Text.◌++◌ "/" path in
        let spelled = append_assoc "/api/v1" inner r.pattern in
        h (ap second (sym e ∙ spelled) ∙ second-api (Text.◌++◌ inner r.pattern)),
    mount-Lacks path pattern routes rest h lacks,
  )

  mount_all-Lacks :
      (providers : StringMap (List (Route S D))) (pattern : String)
      → second pattern ≢ b'a'
      → Lacks pattern (mount_all providers)
  unfolding mount_all
  mount_all-Lacks [] pattern h = tt
  mount_all-Lacks ((path, routes) ∷ rest) pattern h =
      mount-Lacks path pattern routes (mount_all rest) h (mount_all-Lacks rest pattern h)

-- What a health endpoint answers.
abbrev pub health_text : String → String
health_text path = if path == "/health" then "healthy" else "ready"

distinct : (p q : String) → second p ≢ second q → p ≢ q
distinct p q h e = h (ap second e)

module _ {S D : Type 0} (find : List (Route S D) → String → String → Option (Route S D × String))
    (router : IsRouter find) (cfg : Config) (providers : StringMap (List (Route S D)))
    (req : Request) (s : S) where
  abbrev health : String → String → Route S D
  health path text = route "GET" path (constant (("status", text) ∷ []))

  find-health :
      req.path ≡ "/health"
      → req.method ≡ "GET"
      → find (setup_routes providers) req.method req.path ≡ some (health "/health" "healthy", "")
  unfolding setup_routes
  find-health e m =
      rw (e, m, setup_routes)
        (router.static [] _ (health "/health" "healthy") refl tt (
          distinct "/ready" "/health" (omega arith),
          (
            distinct "/api/v1/" "/health" (omega arith),
            mount_all-Lacks providers "/health" (omega arith),
          ),
        ))

  find-ready :
      req.path ≡ "/ready"
      → req.method ≡ "GET"
      → find (setup_routes providers) req.method req.path ≡ some (health "/ready" "ready", "")
  unfolding setup_routes
  find-ready e m =
      rw (e, m, setup_routes)
        (router.static (health "/health" "healthy" ∷ []) _ (health "/ready" "ready") refl
          (distinct "/health" "/ready" (omega arith), tt)
          (
            distinct "/api/v1/" "/ready" (omega arith),
            mount_all-Lacks providers "/ready" (omega arith),
          ))

  endpoint-health :
      is_health_path req.path ≡ true
      → req.method ≡ "GET"
      → endpoint find providers req start s
        ≡ (returned (json 200 (object (("status", health_text req.path) ∷ [])) start), s)
  unfolding endpoint is_health_path
  endpoint-health h m = elim (Bool-cases (req.path == "/health")) [
    | inl e ↦ ground (arith, e, find-health ((eq_iff req.path "/health").0 e) m)
    | inr e ↦ ground (
      arith,
      e,
      eq_iff req.path "/ready",
      find-ready ((eq_iff req.path "/ready").0 (ground (arith, e, h))) m,
    )
  ]

  -- The health endpoints answer everybody: whatever key is configured and shown, and whatever the
  -- providers mount, `GET /health` and `GET /ready` are answered with 200 and their status, and
  -- change nothing.
  pub serve-is_health_path :
      is_health_path req.path ≡ true
      → req.method ≡ "GET"
      → let out = serve find cfg providers req s in
        (out.1 ≡ s)
        × ((context_of out.0).status ≡ 200)
        × ((context_of out.0).payload ≡ object (("status", health_text req.path) ∷ []))
  serve-is_health_path h m =
      let passes : Passes cfg req =
        (λ o. distinct "GET" "OPTIONS" (omega arith) (sym m ∙ o), inr (inl h)) in
      ground (arith, serve-endpoint find cfg providers req s passes, endpoint-health h m)
