-- ===== src/Routes/Errors/Lookup.antt =====
-- provider/base.go, client/kubernetes.go, provider/routes.go: what a client is told when the lookup of
-- a service in the cluster fails.
use Prim.Native.String as Text
use text.Mathlib.TextLemmas.{nil-append}
use managed_services_lib.Common.{String, ◌≡◌, refl, ◌⊎◌, inl, inr, none, List, [], ◌∷◌}
use managed_services_lib.Failure.{
  Error, Result, ok, err, message, is, wrapf, sentinel, service_not_found,
}
use managed_services_lib.Model.Kubernetes.{ApiResource}
use managed_services_lib.Client.Api.{Objects, ApiErrors, ApiServer, Reply, done, fail}
use managed_services_lib.Client.Kubernetes.{kubernetes_client_impl, to_gvr, wrap_k8s_error}
use managed_services_lib.Provider.Base.{find_service_namespace, service_selector}
use managed_services_lib.Routes.Errors.{answer}
use managed_services_lib.Routes.Errors.Answers.{infrastructure_answer, answer-wrap_k8s_error}

-- What a lookup yields and how its error is answered, by the reply of the API server.
abbrev pub Answers :
    {U E : Type 0} → Objects U → ApiErrors E → String → Reply E (List U) → Result String → Type 0
Answers objects errors id (done []) r =
    (e : Error) × (r ≡ err e)
    × ((answer e).code ≡ 404)
    × ((answer e).text ≡ Text.◌++◌ "service not found" (Text.◌++◌ ": " id))
Answers objects errors id (done (u ∷ us)) r = r ≡ ok (objects.get_namespace u)
Answers objects errors id (fail e) r =
    (e' : Error) × (r ≡ err e')
    × ((answer e').code ≡ (infrastructure_answer errors e).0)
    × ((answer e').text ≡ (infrastructure_answer errors e).1)

-- What an API server may reply to a list.
Reply-cases :
    {E S A : Type 0} (out : Reply E (List A) × S)
    → ((s : S) × (out ≡ (done [], s)))
      ⊎ ((u : A) × (us : List A) × (s : S) × (out ≡ (done (u ∷ us), s)))
      ⊎ ((e : E) × (s : S) × (out ≡ (fail e, s)))
Reply-cases (done [], s) = inl (s, refl)
Reply-cases (done (u ∷ us), s) = inr (inl (u, us, s, refl))
Reply-cases (fail e, s) = inr (inr (e, s, refl))

abbrev missing : String → Error
missing id = wrapf "" (sentinel service_not_found) (Text.◌++◌ ": " id)

answer-missing :
    (id : String)
    → ((answer (missing id)).code ≡ 404)
      × ((answer (missing id)).text ≡ Text.◌++◌ "service not found" (Text.◌++◌ ": " id))
unfolding answer is message
answer-missing id = (refl, nil-append (Text.◌++◌ "service not found" (Text.◌++◌ ": " id)))

module _ {S U E : Type 0} (objects : Objects U) (errors : ApiErrors E)
    (server : ApiServer S U E) where
  -- `FindServiceNamespace` through the client asks the API server once, across all namespaces. The
  -- namespace is that of the first object found. If there is none, `HandleError` answers 404 and
  -- names the service; if the API server fails, it answers by the kind of the failure, with a fixed
  -- text that says nothing of the server's message.
  pub find_service_namespace-Answers :
      (api : ApiResource) (provider_type id : String) (s : S)
      → Answers objects errors id
          (server.list (to_gvr api) none (service_selector provider_type id) "" s).0
          (find_service_namespace objects
            (kubernetes_client_impl errors server)
            api
            provider_type
            id
            s).0
  unfolding find_service_namespace kubernetes_client_impl
  find_service_namespace-Answers api provider_type id s =
      elim (Reply-cases (server.list (to_gvr api) none (service_selector provider_type id) "" s)) [
        | inl (s', e) ↦
            let (code, shown) = answer-missing id in
            rw e (
              rw (e, find_service_namespace, kubernetes_client_impl)
                (missing id, refl, code, shown))
        | inr (inl (u, us, s', e)) ↦
            rw e (rw (e, find_service_namespace, kubernetes_client_impl) refl)
        | inr (inr (f, s', e)) ↦
            let before : String = Text.◌++◌ "failed to find service " (Text.◌++◌ id ": ") in
            let (code, shown) = answer-wrap_k8s_error errors f ((before, "") ∷ []) in
            rw e (
              rw (e, find_service_namespace, kubernetes_client_impl)
                (wrapf before (wrap_k8s_error errors f) "", refl, code, shown))
      ]
