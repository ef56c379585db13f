-- ===== src/Tests/Paused.antt =====
-- A StatefulSet whose annotations are the whole state, and the patch that stores three replicas.
use managed_services_lib.Common.{◌≡◌, refl, ◌⊎◌, none, [], ◌∷◌, arith}
use managed_services_lib.Common.Int.{pos}
use managed_services_lib.Common.StringMap.{StringMap, put}
use managed_services_lib.Common.Decimal.{show_int}
use managed_services_lib.Common.{String}
use managed_services_lib.Failure.{Error, Result, ok, err, foreign}
use managed_services_lib.Model.Kubernetes.{ResourceRef, stateful_set_api}
use managed_services_lib.Client.Api.{Action, KubernetesClient, Objects}
use managed_services_lib.Provider.Base.{stored_replicas, escape_json_pointer}
use managed_services_lib.Provider.Base.Paused.{annotate, IsPatching, stored_replicas-annotate}

abbrev Annotations : Type 0
Annotations = StringMap String

abbrev annotated_objects : Objects Annotations
annotated_objects = record {
  get_namespace = λ u. "rg-1";
  get_uid = λ u. "uid";
  get_labels = λ u. none;
  get_annotations = λ u. u;
  to_unstructured = λ job. err (foreign "no Job");
}

abbrev refuse : {A : Type 0} → Action Annotations (Result A)
refuse s = (err (foreign "not served"), s)

abbrev replicas_key : String
replicas_key = "managed-services.codesphere.com/replicas"

-- The only patch that is made stores three replicas.
abbrev stateful : KubernetesClient Annotations Annotations
stateful = record {
  create = λ api ns u s. refuse s;
  get = λ ref s. (ok s, s);
  list = λ opts s. refuse s;
  get_job = λ ns name s. refuse s;
  list_pods = λ ns selector s. refuse s;
  patch = λ ref patches s. (none, put replicas_key (show_int (pos 3)) s);
  delete = λ ref s. (none, s);
  get_pod_logs = λ ns pod container tail s. refuse s;
  create_secret = λ ns secret s. refuse s;
  get_secret = λ ns name s. refuse s;
  delete_secret = λ ns name s. (none, s);
}

abbrev service_ref : ResourceRef
service_ref = record { api_resource = stateful_set_api; name = "pg"; namespace = "rg-1" }

abbrev initially : Annotations
initially = ("owner", "team") ∷ []

stateful-IsPatching :
    IsPatching annotated_objects stateful service_ref replicas_key (show_int (pos 3))
stateful-IsPatching = record { annotated = λ token s obj back clean done e. (s, ground (arith, e)) }

stored_replicas-annotate_example :
    ((stored_replicas annotated_objects stateful service_ref replicas_key
        (stateful.patch service_ref
          (annotate (escape_json_pointer replicas_key) (show_int (pos 3)))
          initially).1).0
      ≡ ok (pos 3))
    ⊎ ((e : Error) × ((stateful.get service_ref
            (stateful.patch service_ref
              (annotate (escape_json_pointer replicas_key) (show_int (pos 3)))
              initially).1).0
          ≡ err e))
stored_replicas-annotate_example =
    stored_replicas-annotate annotated_objects stateful service_ref replicas_key (pos 3) initially
      stateful-IsPatching (omega arith) refl
