-- ===== src/Model/Kubernetes.antt =====
-- model/kubernetes.go: resources, references, list options, patches and label keys.
use managed_services_lib.Common.{String, List}

pub record ApiResource : Type 0 where
  pub group : String
  pub version : String
  pub plural : String

-- `APIResource` is embedded, so that its fields are those of the reference too.
pub record ResourceRef : Type 0 where
  pub api_resource : ApiResource
  pub name : String
  pub namespace : String

pub record ListOptions : Type 0 where
  pub api_resource : ApiResource
  pub namespace : String
  pub label_selector : String
  pub field_selector : String

-- `metav1.OwnerReference`, with the fields that the program sets.
pub record OwnerReference : Type 0 where
  pub api_version : String
  pub kind : String
  pub name : String
  pub uid : String

-- `Value` is an `interface{}`: the library itself only patches owner references. A provider's other
-- values are carried as their JSON text, or are of a type that `json.Marshal` refuses.
pub data PatchValue : Type 0 where
  owners : List OwnerReference → PatchValue
  json : String → PatchValue
  unsupported : PatchValue

pub record K8sPatch : Type 0 where
  pub op : String
  pub path : String
  pub value : PatchValue

abbrev pub secret_api : ApiResource
secret_api = record { group = ""; version = "v1"; plural = "secrets" }

abbrev pub pod_api : ApiResource
pod_api = record { group = ""; version = "v1"; plural = "pods" }

abbrev pub service_api : ApiResource
service_api = record { group = ""; version = "v1"; plural = "services" }

abbrev pub deployment_api : ApiResource
deployment_api = record { group = "apps"; version = "v1"; plural = "deployments" }

abbrev pub stateful_set_api : ApiResource
stateful_set_api = record { group = "apps"; version = "v1"; plural = "statefulsets" }

abbrev pub persistent_volume_claim_api : ApiResource
persistent_volume_claim_api = record {
  group = "";
  version = "v1";
  plural = "persistentvolumeclaims";
}

abbrev pub job_api : ApiResource
job_api = record { group = "batch"; version = "v1"; plural = "jobs" }

abbrev pub service_id_label : String
service_id_label = "managed-services.codesphere.com/id"

abbrev pub backup_id_label : String
backup_id_label = "managed-services.codesphere.com/backup-id"

abbrev pub provider_label : String
provider_label = "managed-services.codesphere.com/provider"

abbrev pub team_id_label : String
team_id_label = "managed-services.codesphere.com/team-id"
