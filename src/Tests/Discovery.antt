-- ===== src/Tests/Discovery.antt =====
-- A cluster with the objects of two services of one provider, listed by label.
use managed_services_lib.Common.{String, ◌≡◌, refl, List, [], ◌∷◌, ◌==◌, if◌then◌else◌, any}
use managed_services_lib.Failure.{ok}
use managed_services_lib.Model.Kubernetes.{stateful_set_api, provider_label, service_id_label}
use managed_services_lib.Client.Types.{Job}
use managed_services_lib.Client.Api.{KubernetesClient}
use managed_services_lib.Provider.Base.{find_service_namespace, list_by_label}
use managed_services_lib.Provider.Base.Discovery.{
  keep, has_label, is_service, provider_query, IsListing, Found, list_by_label-Found,
}
use managed_services_lib.Tests.Memory.{World, empty, memory, objects}
use managed_services_lib.Tests.Jobs.{failed_job}

abbrev service_of : String → String → Job
service_of ns id = record failed_job {
  namespace = ns;
  labels = (provider_label, "pg") ∷ (service_id_label, id) ∷ [];
}

abbrev stored : World → List Job
stored w = service_of "rg-1" "ms-6" ∷ service_of "rg-2" "ms-7" ∷ []

abbrev selective : KubernetesClient World Job
selective = record memory {
  list = λ opts w. (
    ok (
        if opts.label_selector == provider_query "pg"
        then keep (has_label objects provider_label "pg") (stored w)
        else keep (is_service objects "pg" "ms-7") (stored w)),
    w,
  );
}

selective-IsListing : IsListing objects selective stateful_set_api "pg" "ms-7" stored
selective-IsListing = record { by_provider = λ s. refl; by_service = λ s. refl }

list_by_label-Found_example :
    (ids : List String) × ((list_by_label objects selective stateful_set_api
        (provider_query "pg")
        empty).0
      ≡ ok ids)
    × Found objects selective
        (stored empty)
        "pg"
        "ms-7"
        (any (λ i. i == "ms-7") ids)
        (find_service_namespace objects selective stateful_set_api "pg" "ms-7" empty).0
list_by_label-Found_example =
    list_by_label-Found objects selective stateful_set_api "pg" "ms-7" stored selective-IsListing
      empty
