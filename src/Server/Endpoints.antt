-- ===== src/Server/Endpoints.antt =====
-- provider/routes.go mounted by api/server.go: the endpoints of a provider that registers all three sets
-- of routes on its group, as README.md wires it.
use managed_services_lib.Common.{
  map, String, ◌≡◌, ◌≢◌, refl, sym, ◌⊎◌, Bool, true, Option, none, some, List, [], ◌∷◌, ◌++◌, arith,
  ◌==◌, eq_iff, ◌&&◌, ◌||◌, not, false,
}
use managed_services_lib.Common.StringMap.{StringMap}
use managed_services_lib.Config.{Config}
use managed_services_lib.Model.Contract.{ServiceStatus}
use managed_services_lib.Provider.Interface.{Provider, Backups, Maintenance}
use managed_services_lib.Http.{Request, Handler}
use managed_services_lib.Middleware.{recovered, logged}
use managed_services_lib.Routes.Payloads.{Binder}
use managed_services_lib.Routes.Handlers.{
  list_or_status, create, update, delete, take_backup, get_backup_status, delete_backup,
  apply_maintenance,
}
use managed_services_lib.Server.{
  Route, serve, register_routes, register_backup_routes, register_maintenance_routes,
}
use managed_services_lib.Server.Tails.{
  Endpoint, list_services, create_service, update_service, delete_service, put_backup, poll_backup,
  drop_backup, maintain_service, method_of, tail_of, pattern_of, id_of, before, after, spelled,
  is_tail-tail_of, is_tail-pattern_of, fits, match_tail-tail_of,
}
use managed_services_lib.Server.Paths.{
  tail_segments, extend, segments, match_segments, match_tail, mounted, is_name, is_segment,
  is_tail,
}
use managed_services_lib.Server.Spares.{Names, SparesTail}
use managed_services_lib.Server.Routing.{IsMatcher, serve-mounted}
use managed_services_lib.Server.Security.{start, Passes}

module _ {S PlanParams Config' Secrets Details UpdateParams : Type 0}
    (binder : Binder PlanParams Config' Secrets UpdateParams)
    (p : Provider S PlanParams Config' Secrets Details UpdateParams) (b : Backups S)
    (m : Maintenance S) where
  abbrev pub handler_of :
      Endpoint → String → Request → Handler S (ServiceStatus PlanParams Config' Details)
  handler_of list_services id = list_or_status binder p
  handler_of create_service id = create binder p
  handler_of update_service id = update binder p id
  handler_of delete_service id = delete binder p id
  handler_of put_backup id = take_backup binder b id
  handler_of poll_backup id = get_backup_status binder b id
  handler_of drop_backup id = delete_backup binder b id
  handler_of maintain_service id = apply_maintenance m id

  -- The group of a provider that registers everything.
  abbrev pub registered : List (Route S (ServiceStatus PlanParams Config' Details))
  registered =
      register_routes binder p ++ register_backup_routes binder b ++ register_maintenance_routes m

abbrev is_none : Option String → Bool
is_none none = true
is_none (some x) = false

abbrev all : {A : Type 0} → (A → Bool) → List A → Bool
all f [] = true
all f (x ∷ xs) = f x && all f xs

-- Whether a route leaves an endpoint alone, by its method or by its pattern.
abbrev leaves : {S D : Type 0} → Endpoint → String → Route S D → Bool
leaves e id r =
    is_tail r.pattern
    && (not (r.method == method_of e)
        || is_none
            (match_segments (tail_segments (segments r.pattern)) (tail_segments (spelled e id))))

leaves-spared :
    {S D : Type 0} (e : Endpoint) (id : String) (r : Route S D)
    → is_segment id ≡ true
    → leaves e id r ≡ true
    → (is_tail r.pattern ≡ true)
      × ((r.method ≢ method_of e) ⊎ (match_tail r.pattern (tail_of e id) ≡ none))
leaves-spared e id r h k =
    ground (arith, k, eq_iff r.method (method_of e), match_tail-tail_of e id r.pattern h)

SparesTail-leaves :
    {S D : Type 0} (e : Endpoint) (id : String) (rs : List (Route S D))
    → is_segment id ≡ true
    → all (leaves e id) rs ≡ true
    → SparesTail (method_of e) (tail_of e id) rs
SparesTail-leaves e id [] h k = tt
SparesTail-leaves e id (r ∷ rs) h k =
    (leaves-spared e id r h (ground (arith, k)), SparesTail-leaves e id rs h (ground (arith, k)))

module _ {S PlanParams Config' Secrets Details UpdateParams : Type 0}
    (binder : Binder PlanParams Config' Secrets UpdateParams)
    (p : Provider S PlanParams Config' Secrets Details UpdateParams) (b : Backups S)
    (m : Maintenance S) where
  abbrev route_of : Endpoint → Route S (ServiceStatus PlanParams Config' Details)
  route_of e = record {
    method = method_of e;
    pattern = pattern_of e;
    handler = λ id. handler_of binder p b m e id;
  }

  registered-split :
      (e : Endpoint)
      → registered binder p b m ≡ map route_of (before e) ++ route_of e ∷ map route_of (after e)
  unfolding register_routes register_backup_routes register_maintenance_routes
  registered-split list_services = refl
  registered-split create_service = refl
  registered-split update_service = refl
  registered-split delete_service = refl
  registered-split put_backup = refl
  registered-split poll_backup = refl
  registered-split drop_backup = refl
  registered-split maintain_service = refl

  alone :
      (e : Endpoint) (id : String)
      → (all (leaves e id) (map route_of (before e)) ≡ true)
        × (all (leaves e id) (map route_of (after e)) ≡ true)
  unfolding segments extend match_segments
  alone list_services id = ground arith
  alone create_service id = ground arith
  alone update_service id = ground arith
  alone delete_service id = ground arith
  alone put_backup id = ground arith
  alone poll_backup id = ground arith
  alone drop_backup id = ground arith
  alone maintain_service id = ground arith

  handler_at :
      (e : Endpoint) (id : String)
      → handler_of binder p b m e (id_of e id) ≡ handler_of binder p b m e id
  handler_at list_services id = refl
  handler_at create_service id = refl
  handler_at update_service id = refl
  handler_at delete_service id = refl
  handler_at put_backup id = refl
  handler_at poll_backup id = refl
  handler_at drop_backup id = refl
  handler_at maintain_service id = refl

module _ {S PlanParams Config' Secrets Details UpdateParams : Type 0}
    (binder : Binder PlanParams Config' Secrets UpdateParams)
    (p : Provider S PlanParams Config' Secrets Details UpdateParams) (b : Backups S)
    (m : Maintenance S)
    (find : List (Route S (ServiceStatus PlanParams Config' Details))
      → String
      → String
      → Option (Route S (ServiceStatus PlanParams Config' Details) × String)) where
  -- A request for an endpoint of a provider reaches the handler of that endpoint, with the id of
  -- the path. The provider is mounted under a plain name with all three sets of routes, beside any
  -- other providers, under other plain names and with patterns that are empty or begin with a
  -- slash, in whatever order Go meets them; the path is that of the endpoint for an id that is one
  -- segment; the method is the endpoint's; and the request has passed the middleware. Then the
  -- answer and the world are the handler's, with the log line or the answer to a panic that the
  -- middleware adds, and no other route is asked.
  pub serve-registered :
      (router : IsMatcher find) (cfg : Config)
      (left right : StringMap (List (Route S (ServiceStatus PlanParams Config' Details))))
      (name : String) (e : Endpoint) (id : String) (req : Request) (s : S)
      → is_name name ≡ true
      → name ≢ ""
      → Names name left
      → Names name right
      → is_segment id ≡ true
      → id ≢ ""
      → Passes cfg req
      → req.method ≡ method_of e
      → req.path ≡ mounted name (tail_of e id)
      → ((serve find cfg (left ++ (name, registered binder p b m) ∷ right) req s).0
          ≡ recovered req (logged req (handler_of binder p b m e id req start s).0))
        × ((serve find cfg (left ++ (name, registered binder p b m) ∷ right) req s).1
            ≡ (handler_of binder p b m e id req start s).1)
  serve-registered router cfg left right name e id req s plain named lefts rights h given passes
        method path =
      rw (registered-split binder p b m e, sym (handler_at binder p b m e id))
        (serve-mounted find router cfg left right name (map (route_of binder p b m) (before e))
          (map (route_of binder p b m) (after e)) (route_of binder p b m e) req (tail_of e id)
          (id_of e id) s
          (record {
            name_plain = plain;
            named = named;
            others = (lefts, rights);
            tail = (is_tail-tail_of e id, is_tail-pattern_of e);
            fits = fits e id h given;
            alone = (
              SparesTail-leaves e id (map (route_of binder p b m) (before e)) h
                  (alone binder p b m e id).0,
              SparesTail-leaves e id (map (route_of binder p b m) (after e)) h
                  (alone binder p b m e id).1,
            );
          })
          passes method path)
