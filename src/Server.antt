-- ===== src/Server.antt =====
-- api/server.go: the middleware chain and the routes of the server. gin's router, which finds the
-- route of a method and a path, is the parameter `find`; otelgin's middleware records and passes on.
-- The redirects that gin sends by itself for a superfluous slash run no handler and are left out.
pub mod Security
pub mod Paths
pub mod Spares
pub mod Tails
pub mod Routing
pub mod Endpoints
pub mod Table
pub mod Lifecycle
use Prim.Native.String as Text
use managed_services_lib.Common.{
  ℕ, String, Bool, true, false, not, Option, none, some, List, [], ◌∷◌, ◌++◌, map, ◌==◌,
  if◌then◌else◌,
}
use managed_services_lib.Common.StringMap.{StringMap}
use managed_services_lib.Config.{Config}
use managed_services_lib.Model.Contract.{ServiceStatus}
use managed_services_lib.Provider.Interface.{Provider, Backups, Maintenance}
use managed_services_lib.Http.{Request, object, Context, Finish, returned, Handler, json, fresh}
use managed_services_lib.Routes.Payloads.{Binder}
use managed_services_lib.Routes.Handlers.{
  list_or_status, create, update, delete, take_backup, get_backup_status, delete_backup,
  apply_maintenance,
}
use managed_services_lib.Middleware.{
  Middleware, auth, cors, security_headers, logger, error_handler, not_found,
}

-- A handler gets the value of the path parameter `:id` if its pattern has one.
pub record Route (S D : Type 0) : Type 0 where
  pub method : String
  pub pattern : String
  pub handler : String → Request → Handler S D

-- `group.METHOD(pattern, handler)`
abbrev pub route : {S D : Type 0} → String → String → (String → Request → Handler S D) → Route S D
route m p h = record { method = m; pattern = p; handler = h }

module _ {S PlanParams Config Secrets Details UpdateParams : Type 0}
    (binder : Binder PlanParams Config Secrets UpdateParams) where
  -- `RegisterRoutes`
  unfoldable pub register_routes :
      Provider S PlanParams Config Secrets Details UpdateParams
      → List (Route S (ServiceStatus PlanParams Config Details))
  register_routes p =
      route "GET" "" (λ id. list_or_status binder p)
      ∷ route "POST" "" (λ id. create binder p)
      ∷ route "PATCH" "/:id" (update binder p)
      ∷ route "DELETE" "/:id" (delete binder p)
      ∷ []

  -- `RegisterBackupRoutes`
  unfoldable pub register_backup_routes :
      Backups S → List (Route S (ServiceStatus PlanParams Config Details))
  register_backup_routes b =
      route "PUT" "/backups/:id" (take_backup binder b)
      ∷ route "POST" "/backups/:id/status" (get_backup_status binder b)
      ∷ route "DELETE" "/backups/:id" (delete_backup binder b)
      ∷ []

-- `RegisterMaintenanceRoutes`
unfoldable pub register_maintenance_routes : {S D : Type 0} → Maintenance S → List (Route S D)
register_maintenance_routes m = route "POST" "/:id/maintenance" (apply_maintenance m) ∷ []

module _ {S D : Type 0} where
  -- `c.JSON(http.StatusOK, gin.H{…})`
  abbrev pub constant : List (String × String) → String → Request → Handler S D
  constant fields id req c s = (returned (json 200 (object fields) c), s)

  -- `api.Group("/" + path)` puts a prefix before the patterns of the routes mounted on it.
  abbrev pub under : String → Route S D → Route S D
  under prefix r = record r { pattern = Text.◌++◌ prefix r.pattern }

  unfoldable pub mount_all : StringMap (List (Route S D)) → List (Route S D)
  mount_all [] = []
  mount_all ((path, routes) ∷ rest) =
      map (under (Text.◌++◌ "/api/v1" (Text.◌++◌ "/" path))) routes ++ mount_all rest

  -- `setupRoutes`; the providers' routes come in the order in which Go meets the map.
  unfoldable pub setup_routes : StringMap (List (Route S D)) → List (Route S D)
  setup_routes providers =
      route "GET" "/health" (constant (("status", "healthy") ∷ []))
      ∷ route "GET" "/ready" (constant (("status", "ready") ∷ []))
      ∷ route "GET" "/api/v1/"
          (constant (("version", "v1") ∷ ("message", "Managed Services API") ∷ []))
      ∷ mount_all providers

  -- `router.Use(a); router.Use(b)`: the first is the outermost.
  abbrev pub chain : List (Middleware S D) → Request → Handler S D → Handler S D
  chain [] req h = h
  chain (m ∷ ms) req h = m req (chain ms req h)

  -- The middleware of `NewServer`, with `Auth` only if a key is set.
  unfoldable pub middlewares : Config → List (Middleware S D)
  middlewares cfg =
      error_handler
      ∷ logger
      ∷ security_headers
      ∷ cors
      ∷ (if not (cfg.api_key == "") then auth cfg.api_key ∷ [] else [])

  module _ (find : List (Route S D) → String → String → Option (Route S D × String)) where
    -- The handler of a request; the middleware runs for a request with no route too.
    unfoldable pub endpoint : StringMap (List (Route S D)) → Request → Handler S D
    endpoint providers req = elim (find (setup_routes providers) req.method req.path) [
      | none ↦ not_found req
      | some (r, id) ↦ r.handler id req
    ]

    -- `Server.Handler().ServeHTTP`
    unfoldable pub serve : Config → StringMap (List (Route S D)) → Request → S → Finish D × S
    serve cfg providers req s = chain (middlewares cfg) req (endpoint providers req) fresh s
