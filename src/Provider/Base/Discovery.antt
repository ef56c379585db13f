-- ===== src/Provider/Base/Discovery.antt =====
-- provider/base.go: `ListByLabel` and `FindServiceNamespace` on one cluster.
use Prim.Native.String as Text
use managed_services_lib.Common.{
  String, ◌≡◌, refl, Bool, true, false, ◌&&◌, none, some, List, [], ◌∷◌, ◌==◌, arith, any,
  if◌then◌else◌, Bool-cases, ◌⊎◌, inl, inr, ◌++◌, ap,
}
use managed_services_lib.Common.StringMap.{lookup}
use managed_services_lib.Failure.{Error, Result, ok, err, is, service_not_found, wrapf, sentinel}
use managed_services_lib.Model.Kubernetes.{
  ApiResource, ListOptions, provider_label, service_id_label,
}
use managed_services_lib.Client.Api.{KubernetesClient, Objects}
use managed_services_lib.Provider.Base.{
  find_service_namespace, list_by_label, service_selector, service_ids, first_namespace,
}

abbrev pub keep : {A : Type 0} → (A → Bool) → List A → List A
keep p [] = []
keep p (x ∷ xs) = if p x then x ∷ keep p xs else keep p xs

-- The first element that is kept, with what stands before it, or none.
abbrev FirstKept : {A : Type 0} → (A → Bool) → List A → Type 0
FirstKept {A} p xs =
    ((any p xs ≡ false) × (keep p xs ≡ []))
    ⊎ ((before : List A) × (x : A) × (after : List A) × (rest : List A) × (xs ≡ before ++ x ∷ after)
        × (any p before ≡ false)
        × (p x ≡ true)
        × (any p xs ≡ true)
        × (keep p xs ≡ x ∷ rest))

step-FirstKept :
    {A : Type 0} (p : A → Bool) (x : A) (xs : List A)
    → p x ≡ false
    → FirstKept p xs
    → FirstKept p (x ∷ xs)
step-FirstKept p x xs fails (inl (never, nothing)) =
    inl (ground (arith, fails, never), ground (arith, fails, nothing))
step-FirstKept p x xs fails
      (inr (before, y, after, rest, split, none_before, holds, some_yes, kept)) =
    inr (
      x ∷ before,
      y,
      after,
      rest,
      ap (◌∷◌ x) split,
      ground (arith, fails, none_before),
      holds,
      ground (arith, some_yes),
      ground (arith, fails, kept),
    )

kept-FirstKept : {A : Type 0} (p : A → Bool) (xs : List A) → FirstKept p xs
kept-FirstKept p [] = inl (refl, refl)
kept-FirstKept p (x ∷ xs) = elim (Bool-cases (p x)) [
  | inl holds ↦
      inr ([], x, xs, keep p xs, refl, refl, holds, ground (arith, holds), ground (arith, holds))
  | inr fails ↦ step-FirstKept p x xs fails (kept-FirstKept p xs)
]

abbrev label_query : String → String → String
label_query key value = Text.◌++◌ key (Text.◌++◌ "=" value)

-- The options that ask for the objects in all namespaces which a query selects.
abbrev pub cluster_wide : ApiResource → String → ListOptions
cluster_wide api query = record {
  api_resource = api;
  namespace = "";
  label_selector = query;
  field_selector = "";
}

abbrev pub provider_query : String → String
provider_query provider_type = label_query provider_label provider_type

abbrev pub service_query : String → String → String
service_query provider_type id =
    Text.◌++◌ provider_label
      (Text.◌++◌ "=" (Text.◌++◌ provider_type (Text.◌++◌ "," (label_query service_id_label id))))

module _ {U : Type 0} (objects : Objects U) where
  abbrev pub has_label : String → String → U → Bool
  has_label key value u = elim (objects.get_labels u) [
    | none ↦ false
    | some labels ↦ (elim (lookup key labels) [ none ↦ false | some v ↦ v == value ])
  ]

  -- An object of the provider's service.
  abbrev pub is_service : String → String → U → Bool
  is_service provider_type id u =
      has_label provider_label provider_type u && has_label service_id_label id u

  -- A cluster whose objects of a kind are `stored`, and that lists those that a selector selects, as
  -- Kubernetes documents it: `k=v` asks for the label, and a comma for what stands on both its sides.
  pub record IsListing {S : Type 0} (kube : KubernetesClient S U) (api : ApiResource)
      (provider_type id : String) (stored : S → List U) : Type 0 where
    pub by_provider :
        (s : S)
        → kube.list (cluster_wide api (provider_query provider_type)) s
          ≡ (ok (keep (has_label provider_label provider_type) (stored s)), s)
    pub by_service :
        (s : S)
        → kube.list (cluster_wide api (service_query provider_type id)) s
          ≡ (ok (keep (is_service provider_type id) (stored s)), s)

  module _ {S : Type 0} (kube : KubernetesClient S U) where
    service_ids-keep :
        (provider_type id : String) (us : List U)
        → any
            (λ i. i == id)
            (service_ids objects kube (keep (has_label provider_label provider_type) us))
          ≡ any (is_service provider_type id) us
    unfolding service_ids
    service_ids-keep provider_type id [] = refl
    service_ids-keep provider_type id (u ∷ us) =
        ground (arith, service_ids-keep provider_type id us)

    -- What `FindServiceNamespace` finds for an id, by whether `ListByLabel` has listed it.
    abbrev pub Found : List U → String → String → Bool → Result String → Type 0
    Found us provider_type id true r =
        (before : List U) × (u : U) × (after : List U) × (us ≡ before ++ u ∷ after)
        × (any (is_service provider_type id) before ≡ false)
        × (is_service provider_type id u ≡ true)
        × (r ≡ ok (objects.get_namespace u))
    Found us provider_type id false r = (e : Error) × (r ≡ err e) × (is e service_not_found ≡ true)

    module _ (api : ApiResource) (provider_type id : String) (stored : S → List U)
        (l : IsListing kube api provider_type id stored) where
      found_namespace :
          (s : S)
          → (find_service_namespace objects kube api provider_type id s).0
            ≡ first_namespace objects kube id (keep (is_service provider_type id) (stored s))
      unfolding find_service_namespace service_selector
      found_namespace s = ground (arith, l.by_service s)

      found :
          (s : S)
          → Found
              (stored s)
              provider_type
              id
              (any (is_service provider_type id) (stored s))
              (find_service_namespace objects kube api provider_type id s).0
      unfolding is
      found s = elim (kept-FirstKept (is_service provider_type id) (stored s)) [
        | inl (never, nothing) ↦
            rw (never, found_namespace s, nothing)
              (wrapf "" (sentinel service_not_found) (Text.◌++◌ ": " id), refl, refl)
        | inr (before, u, after, rest, split, fails, holds, listed, kept) ↦
            rw (listed, found_namespace s, kept) (before, u, after, split, fails, holds, refl)
      ]

      -- On a cluster that selects by label, `ListByLabel` by the provider's label and
      -- `FindServiceNamespace` agree about the services of the provider: an id is listed exactly if
      -- it is found. Its namespace is then that of the first object with both labels; otherwise
      -- the error is `ErrServiceNotFound`.
      pub list_by_label-Found :
          (s : S)
          → (ids : List String) × ((list_by_label objects kube api
                (provider_query provider_type)
                s).0
              ≡ ok ids)
            × Found
                (stored s)
                provider_type
                id
                (any (λ i. i == id) ids)
                (find_service_namespace objects kube api provider_type id s).0
      unfolding list_by_label
      list_by_label-Found s = (
        service_ids objects kube (keep (has_label provider_label provider_type) (stored s)),
        ground (arith, l.by_provider s),
        rw (service_ids-keep provider_type id (stored s)) (found s),
      )
