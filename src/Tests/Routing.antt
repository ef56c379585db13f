-- ===== src/Tests/Routing.antt =====
-- Requests that are routed by a router that takes the first route that matches.
use managed_services_lib.Common.{
  ℕ, String, ◌≡◌, refl, inl, inr, Option, none, some, List, [], ◌∷◌, ◌++◌, ◌==◌, eq_iff, eq_refl,
  arith, if◌then◌else◌,
}
use managed_services_lib.Common.StringMap.{StringMap}
use managed_services_lib.Failure.{ok}
use managed_services_lib.Model.Contract.{ServiceStatus}
use managed_services_lib.Provider.Interface.{Attempt, Provider, Maintenance}
use managed_services_lib.Middleware.{recovered, logged, shown_key}
use managed_services_lib.Routes.Handlers.{update}
use managed_services_lib.Tests.Requests.{request, settings}
use managed_services_lib.Tests.Routes.{binder, counter, backups}
use managed_services_lib.Server.Tails.{update_service}
use managed_services_lib.Server.Endpoints.{registered, handler_of, serve-registered}
use managed_services_lib.Server.Security.{start, Passes}
use managed_services_lib.Http.{Request}
use managed_services_lib.Server.{Route, route, serve}
use managed_services_lib.Server.Paths.{matches}
use managed_services_lib.Server.Spares.{Spares, Names}
use managed_services_lib.Server.Routing.{IsMatcher}

module _ {S D : Type 0} where
  abbrev tried :
      Route S D → Option String → Option (Route S D × String) → Option (Route S D × String)
  tried r none rest = rest
  tried r (some id) rest = some (r, id)

  unfoldable pub first_match : List (Route S D) → String → String → Option (Route S D × String)
  first_match [] method path = none
  first_match (r ∷ rs) method path =
      let rest = first_match rs method path in
      if r.method == method then tried r (matches r.pattern path) rest else rest

  found :
      (before after : List (Route S D)) (r : Route S D) (path id : String)
      → matches r.pattern path ≡ some id
      → Spares r.method path before
      → first_match (before ++ r ∷ after) r.method path ≡ some (r, id)
  unfolding first_match
  found [] after r path id h spares = rw (eq_refl r.method, h) refl
  found (x ∷ before) after r path id h (inl other, spares) =
      ground (arith, eq_iff x.method r.method, other, found before after r path id h spares)
  found (x ∷ before) after r path id h (inr free, spares) =
      rw (free) (ground (arith, found before after r path id h spares))

  pub first_match-IsMatcher : IsMatcher first_match
  first_match-IsMatcher = record {
    matched = λ before after r path id h front back. found before after r path id h front;
  }

abbrev pub maintenance : {S : Type 0} → Maintenance S
maintenance = record { apply_maintenance = λ id s. (Attempt.returned none, s) }

abbrev pub idle : {S : Type 0} → Provider S String String String String String
idle = record {
  create = λ r s. (Attempt.returned none, s);
  list = λ s. (Attempt.returned (ok []), s);
  get_status = λ ids s. (Attempt.returned (ok []), s);
  update = λ r s. (Attempt.returned none, s);
  delete = λ id s. (Attempt.returned none, s);
}

-- Another provider, which serves the same paths under its own name.
abbrev pub mysql : {S : Type 0} → StringMap (List (Route S (ServiceStatus String String String)))
mysql =
    (
      "mysql",
      route "PATCH" "/:id" (update binder idle)
          ∷ route "PUT" "/backups/:id" (update binder idle)
          ∷ [],
    )
    ∷ []

pub mysql-Names : (S : Type 0) → Names {S = S} "pg" mysql
mysql-Names S = ((refl, ground (arith, eq_iff "mysql" "pg"), (refl, (refl, tt))), tt)

abbrev patched : Request
patched = request "PATCH" "/api/v1/pg/ms-7" "key"

pub shown : (method path : String) → shown_key (request method path "key") ≡ "key"
unfolding shown_key
shown method path = refl

patched-Passes : Passes settings patched
patched-Passes =
    (ground (arith, eq_iff "PATCH" "OPTIONS"), inr (inr (shown "PATCH" "/api/v1/pg/ms-7")))

serve-registered_example :
    ((serve first_match settings
        (mysql ++ ("pg", registered binder counter backups maintenance) ∷ [])
        patched
        0).0
      ≡ recovered patched (
          logged patched
            (handler_of binder counter backups maintenance update_service "ms-7" patched start
              0).0))
    × ((serve first_match settings
          (mysql ++ ("pg", registered binder counter backups maintenance) ∷ [])
          patched
          0).1
        ≡ (handler_of binder counter backups maintenance update_service "ms-7" patched start 0).1)
serve-registered_example =
    serve-registered binder counter backups maintenance first_match first_match-IsMatcher settings
      mysql [] "pg" update_service "ms-7" patched 0 refl (ground (arith, eq_iff "pg" ""))
      (mysql-Names ℕ) tt refl (ground (arith, eq_iff "ms-7" "")) patched-Passes refl refl
