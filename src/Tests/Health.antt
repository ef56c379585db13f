-- ===== src/Tests/Health.antt =====
-- The health endpoints behind a router that compares texts.
use managed_services_lib.Common.{
  ℕ, String, ◌≡◌, refl, true, ◌&&◌, Option, none, some, List, [], ◌∷◌, ◌++◌, ◌==◌, eq_iff, eq_refl,
  arith, if◌then◌else◌,
}
use managed_services_lib.Common.Int.{pos}
use managed_services_lib.Common.StringMap.{StringMap}
use managed_services_lib.Config.{Config}
use managed_services_lib.Http.{Request, object, context_of}
use managed_services_lib.Middleware.{is_health_path}
use managed_services_lib.Server.{Route, route, constant, serve}
use managed_services_lib.Server.Table.{Lacks, IsRouter, health_text, serve-is_health_path}

module _ {S D : Type 0} where
  abbrev find : List (Route S D) → String → String → Option (Route S D × String)
  find [] method path = none
  find (r ∷ rs) method path =
      if r.method == method && r.pattern == path then some (r, "") else find rs method path

  find-static :
      (before after : List (Route S D)) (r : Route S D)
      → Lacks r.pattern before
      → find (before ++ r ∷ after) r.method r.pattern ≡ some (r, "")
  find-static [] after r lacks = ground (arith, eq_refl r.method, eq_refl r.pattern)
  find-static (q ∷ before) after r lacks =
      ground (arith, eq_iff q.pattern r.pattern, find-static before after r)

  find-IsRouter : IsRouter {S = S} {D = D} find
  find-IsRouter = record {
    static = λ before after r fixed lacks rest. find-static before after r lacks;
  }

abbrev settings : Config
settings = record { port = pos 8080; api_key = "key"; kubeconfig = ""; environment = "production" }

abbrev mounted : StringMap (List (Route ℕ String))
mounted = ("health", route "GET" "" (constant (("status", "forged") ∷ [])) ∷ []) ∷ []

abbrev probe : Request
probe = record {
  method = "GET";
  path = "/ready";
  raw_query = "";
  ids = [];
  header = λ name. "";
  client_ip = "10.0.0.1";
  body = "";
}

probe-path : is_health_path probe.path ≡ true
unfolding is_health_path
probe-path = refl

serve-is_health_path_example :
    let out = serve find settings mounted probe 0 in
    (out.1 ≡ 0)
    × ((context_of out.0).status ≡ 200)
    × ((context_of out.0).payload ≡ object (("status", health_text probe.path) ∷ []))
serve-is_health_path_example =
    serve-is_health_path find find-IsRouter settings mounted probe 0 probe-path refl
