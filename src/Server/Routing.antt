-- ===== src/Server/Routing.antt =====
-- api/server.go: a request for a provider's endpoint reaches that provider.
use Prim.Native.String as Text
use mathlib.Core.Path.{ap₂}
use mathlib.Core.List.{append_assoc, map-append}
use managed_services_lib.Common.{
  String, ◌≡◌, ◌≢◌, refl, sym, ap, ◌∙◌, inr, true, Option, some, List, [], ◌∷◌, ◌++◌, arith,
}
use managed_services_lib.Common.StringMap.{StringMap}
use managed_services_lib.Config.{Config}
use managed_services_lib.Http.{Request}
use managed_services_lib.Middleware.{recovered, logged}
use managed_services_lib.Server.{
  Route, route, constant, under, endpoint, serve, setup_routes, mount_all,
}
use managed_services_lib.Server.Paths.{
  matches, match_tail, mounted, is_name, is_tail, matches-mounted, own-mounted,
}
use managed_services_lib.Server.Security.{start, Passes, serve-endpoint}
use managed_services_lib.Server.Spares.{
  Spares, SparesTail, Names, Spares-append, mount, Spares-mount, Spares-mount_all,
}

module _ {S D : Type 0} where
  -- What gin documents of its router: a route whose method and pattern match a request serves it, with
  -- the value of its parameter, if no other route does.
  pub record IsMatcher (find : List (Route S D) → String → String → Option (Route S D × String))
      : Type 0 where
    pub matched :
        (before after : List (Route S D)) (r : Route S D) (path id : String)
        → matches r.pattern path ≡ some id
        → Spares r.method path before
        → Spares r.method path after
        → find (before ++ r ∷ after) r.method path ≡ some (r, id)

  mount_all-append :
      (name : String) (rs : List (Route S D)) (left right : StringMap (List (Route S D)))
      → mount_all (left ++ (name, rs) ∷ right)
        ≡ mount_all left ++ (mount name rs ++ mount_all right)
  unfolding mount_all
  mount_all-append name rs [] right = refl
  mount_all-append name rs ((other, qs) ∷ left) right =
      ap (◌++◌ (mount other qs)) (mount_all-append name rs left right)
      ∙ sym (append_assoc (mount other qs) (mount_all left) (mount name rs ++ mount_all right))

  mount_all-split :
      (name : String) (before after : List (Route S D)) (r : Route S D)
      (left right : StringMap (List (Route S D)))
      → mount_all (left ++ (name, before ++ r ∷ after) ∷ right)
        ≡ (mount_all left ++ mount name before)
          ++ under (Text.◌++◌ "/api/v1" (Text.◌++◌ "/" name)) r
            ∷ (mount name after ++ mount_all right)
  mount_all-split name before after r left right =
      let prefix : String = Text.◌++◌ "/api/v1" (Text.◌++◌ "/" name) in
      let group : mount name (before ++ r ∷ after)
          ≡ mount name before ++ under prefix r ∷ mount name after =
        map-append (under prefix) before (r ∷ after) in
      mount_all-append name (before ++ r ∷ after) left right
      ∙ ap (λ g. mount_all left ++ (g ++ mount_all right)) group
      ∙ ap (◌++◌ (mount_all left))
          (append_assoc (mount name before) (under prefix r ∷ mount name after) (mount_all right))
      ∙ sym (
          append_assoc (mount_all left) (mount name before)
            (under prefix r ∷ (mount name after ++ mount_all right)))

  -- The routes of the server in front of a provider's route, and after it.
  abbrev in_front : String → List (Route S D) → StringMap (List (Route S D)) → List (Route S D)
  in_front name before left = setup_routes left ++ mount name before

  setup_routes-split :
      (name : String) (before after : List (Route S D)) (r : Route S D)
      (left right : StringMap (List (Route S D)))
      → setup_routes (left ++ (name, before ++ r ∷ after) ∷ right)
        ≡ in_front name before left
          ++ under (Text.◌++◌ "/api/v1" (Text.◌++◌ "/" name)) r
            ∷ (mount name after ++ mount_all right)
  unfolding setup_routes
  setup_routes-split name before after r left right =
      ap
        (λ rest.
          route "GET" "/health" (constant (("status", "healthy") ∷ []))
          ∷ route "GET" "/ready" (constant (("status", "ready") ∷ []))
          ∷ route "GET" "/api/v1/"
              (constant (("version", "v1") ∷ ("message", "Managed Services API") ∷ []))
          ∷ rest)
        (mount_all-split name before after r left right)

  Spares-in_front :
      (method name t : String) (before : List (Route S D)) (left : StringMap (List (Route S D)))
      → is_name name ≡ true
      → name ≢ ""
      → is_tail t ≡ true
      → Names name left
      → SparesTail method t before
      → Spares method (mounted name t) (in_front name before left)
  unfolding setup_routes
  Spares-in_front method name t before left h named k names spares =
      let (health, ready, root) = own-mounted name t h named k in
      (
        inr health,
        (
          inr ready,
          (
            inr root,
            Spares-append method (mounted name t) (mount_all left) (mount name before)
                (Spares-mount_all method name t left h k names)
                (Spares-mount method name t before h k spares),
          ),
        ),
      )

module _ {S D : Type 0} (find : List (Route S D) → String → String → Option (Route S D × String))
    (router : IsMatcher find) (cfg : Config) (left right : StringMap (List (Route S D)))
    (name : String) (before after : List (Route S D)) (r : Route S D) where
  abbrev pub providers : StringMap (List (Route S D))
  providers = left ++ (name, before ++ r ∷ after) ∷ right

  -- A route serves the path of its pattern, and no other route of its provider does.
  pub record IsServed (t id : String) : Type 0 where
    pub name_plain : is_name name ≡ true
    pub named : name ≢ ""
    pub others : Names name left × Names name right
    pub tail : (is_tail t ≡ true) × (is_tail r.pattern ≡ true)
    pub fits : match_tail r.pattern t ≡ some id
    pub alone : SparesTail r.method t before × SparesTail r.method t after

  find-mounted :
      (t id : String)
      → IsServed t id
      → find (setup_routes providers) r.method (mounted name t)
        ≡ some (under (Text.◌++◌ "/api/v1" (Text.◌++◌ "/" name)) r, id)
  find-mounted t id s = rw (setup_routes-split name before after r left right) (
      router.matched (in_front name before left) _
        (under (Text.◌++◌ "/api/v1" (Text.◌++◌ "/" name)) r) (mounted name t) id
        (matches-mounted name r.pattern t s.name_plain s.tail.1 s.tail.0 ∙ s.fits)
        (Spares-in_front r.method name t before left s.name_plain s.named s.tail.0 s.others.0
          s.alone.0)
        (Spares-append r.method (mounted name t) (mount name after) (mount_all right)
          (Spares-mount r.method name t after s.name_plain s.tail.0 s.alone.1)
          (Spares-mount_all r.method name t right s.name_plain s.tail.0 s.others.1)))

  endpoint-mounted :
      (req : Request) (t id : String)
      → IsServed t id
      → req.method ≡ r.method
      → req.path ≡ mounted name t
      → (s : S) → endpoint find providers req start s ≡ r.handler id req start s
  endpoint-mounted req t id served m p s =
      let found : find (setup_routes providers) req.method req.path
          ≡ some (under (Text.◌++◌ "/api/v1" (Text.◌++◌ "/" name)) r, id) =
        ap₂ (find (setup_routes providers)) m p ∙ find-mounted t id served in
      unfold endpoint in ground (arith, found)

  -- A request for a provider's endpoint reaches the handler that this provider has mounted, with the
  -- id of the path: whatever other providers there are, in whatever order Go meets them, none of
  -- them is asked. The request has passed the middleware, which adds the log line or the answer to a panic.
  pub serve-mounted :
      (req : Request) (t id : String) (s : S)
      → IsServed t id
      → Passes cfg req
      → req.method ≡ r.method
      → req.path ≡ mounted name t
      → ((serve find cfg providers req s).0
          ≡ recovered req (logged req (r.handler id req start s).0))
        × ((serve find cfg providers req s).1 ≡ (r.handler id req start s).1)
  serve-mounted req t id s served passes m p =
      rw (sym (endpoint-mounted req t id served m p s))
        (serve-endpoint find cfg providers req s passes)
