-- ===== src/Server/Spares.antt =====
-- api/server.go: the routes of other providers, and of other endpoints, serve no path of an endpoint.
use Prim.Native.String as Text
use managed_services_lib.Common.{
  String, ◌≡◌, ◌≢◌, ◌∙◌, ◌⊎◌, inl, inr, true, none, List, [], ◌∷◌, ◌++◌, map, All,
}
use managed_services_lib.Common.StringMap.{StringMap}
use managed_services_lib.Server.{Route, under, mount_all}
use managed_services_lib.Server.Paths.{
  matches, match_tail, mounted, is_name, is_tail, matches-mounted, matches_elsewhere,
}

module _ {S D : Type 0} where
  -- None of the routes serves the method at the path.
  abbrev pub Spares : String → String → List (Route S D) → Type 0
  Spares method path = All (λ r. (r.method ≢ method) ⊎ (matches r.pattern path ≡ none))

  -- The same within the group of a provider.
  abbrev pub SparesTail : String → String → List (Route S D) → Type 0
  SparesTail method t =
      All
        (λ r. (is_tail r.pattern ≡ true) × ((r.method ≢ method) ⊎ (match_tail r.pattern t ≡ none)))

  -- The providers' names are those of a Go map, and can stand in a path.
  abbrev pub Names : String → StringMap (List (Route S D)) → Type 0
  Names name =
      All (λ e. (is_name e.0 ≡ true) × (e.0 ≢ name) × All (λ r. is_tail r.pattern ≡ true) e.1)

  pub Spares-append :
      (method path : String) (xs ys : List (Route S D))
      → Spares method path xs
      → Spares method path ys
      → Spares method path (xs ++ ys)
  Spares-append method path [] ys h k = k
  Spares-append method path (x ∷ xs) ys (g, h) k = (g, Spares-append method path xs ys h k)

  abbrev pub mount : String → List (Route S D) → List (Route S D)
  mount name routes = map (under (Text.◌++◌ "/api/v1" (Text.◌++◌ "/" name))) routes

  pub Spares-mount :
      (method name t : String) (rs : List (Route S D))
      → is_name name ≡ true
      → is_tail t ≡ true
      → SparesTail method t rs
      → Spares method (mounted name t) (mount name rs)
  Spares-mount method name t [] h k spares = tt
  Spares-mount method name t (r ∷ rs) h k ((tail, inl other), spares) =
      (inl other, Spares-mount method name t rs h k spares)
  Spares-mount method name t (r ∷ rs) h k ((tail, inr free), spares) = (
    inr (matches-mounted name r.pattern t h tail k ∙ free),
    Spares-mount method name t rs h k spares,
  )

  Spares-mount_elsewhere :
      (method name other t : String) (rs : List (Route S D))
      → is_name name ≡ true
      → is_name other ≡ true
      → other ≢ name
      → is_tail t ≡ true
      → All (λ r. is_tail r.pattern ≡ true) rs
      → Spares method (mounted name t) (mount other rs)
  Spares-mount_elsewhere method name other t [] h g apart k tails = tt
  Spares-mount_elsewhere method name other t (r ∷ rs) h g apart k (tail, tails) = (
    inr (matches_elsewhere name other r.pattern t h g apart tail k),
    Spares-mount_elsewhere method name other t rs h g apart k tails,
  )

  pub Spares-mount_all :
      (method name t : String) (providers : StringMap (List (Route S D)))
      → is_name name ≡ true
      → is_tail t ≡ true
      → Names name providers
      → Spares method (mounted name t) (mount_all providers)
  unfolding mount_all
  Spares-mount_all method name t [] h k names = tt
  Spares-mount_all method name t ((other, rs) ∷ rest) h k ((g, apart, tails), names) =
      Spares-append method (mounted name t) (mount other rs) (mount_all rest)
        (Spares-mount_elsewhere method name other t rs h g apart k tails)
        (Spares-mount_all method name t rest h k names)
