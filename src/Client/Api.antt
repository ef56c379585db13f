-- ===== src/Client/Api.antt =====
-- The interfaces of the client. `KubernetesClient` is the program's own; `ApiServer` stands for
-- client-go and the cluster behind it, which the program only calls. `S` is the state of the world
-- that a call may change, `U` the type `unstructured.Unstructured`, `E` the errors of client-go.
use managed_services_lib.Common.{ℕ, String, Bool, Option, List}
use managed_services_lib.Common.StringMap.{StringMap}
use managed_services_lib.Model.Kubernetes.{ApiResource, ResourceRef, ListOptions, K8sPatch}
use managed_services_lib.Failure.{Error, Result}
use managed_services_lib.Client.Types.{Secret, Pod, Job}

-- A call reads and changes the world. `Option Error` is Go's `error`, `none` its nil.
abbrev pub Action : Type 0 → Type 0 → Type 0
Action S A = S → A × S

pub record KubernetesClient (S U : Type 0) : Type 0 where
  pub create : ApiResource → String → U → Action S (Result U)
  pub get : ResourceRef → Action S (Result U)
  pub list : ListOptions → Action S (Result (List U))
  pub get_job : String → String → Action S (Result Job)
  pub list_pods : String → String → Action S (Result (List Pod))
  pub patch : ResourceRef → List K8sPatch → Action S (Option Error)
  pub delete : ResourceRef → Action S (Option Error)
  pub get_pod_logs : String → String → String → ℕ → Action S (Result String)
  pub create_secret : String → Secret → Action S (Result Secret)
  pub get_secret : String → String → Action S (Result Secret)
  pub delete_secret : String → String → Action S (Option Error)

-- k8s.io/apimachinery: what the program reads off an unstructured object, and the converter.
pub record Objects (U : Type 0) : Type 0 where
  pub get_namespace : U → String
  pub get_uid : U → String
  pub get_labels : U → Option (StringMap String)
  pub get_annotations : U → StringMap String
  pub to_unstructured : Job → Result U

-- k8s.io/apimachinery/pkg/api/errors
pub record ApiErrors (E : Type 0) : Type 0 where
  pub is_not_found : E → Bool
  pub is_already_exists : E → Bool
  pub is_conflict : E → Bool
  pub is_invalid : E → Bool
  pub error : E → String

pub data Reply (E A : Type 0) : Type 0 where
  done : A → Reply E A
  fail : E → Reply E A

-- `schema.GroupVersionResource`
pub record GroupVersionResource : Type 0 where
  pub group : String
  pub version : String
  pub resource : String

-- The dynamic client's calls take the namespace if `.Namespace(ns)` was called.
pub record ApiServer (S U E : Type 0) : Type 0 where
  pub create : GroupVersionResource → Option String → U → Action S (Reply E U)
  pub get : GroupVersionResource → Option String → String → Action S (Reply E U)
  pub list : GroupVersionResource → Option String → String → String → Action S (Reply E (List U))
  pub patch : GroupVersionResource → Option String → String → List K8sPatch → Action S (Option E)
  pub delete : GroupVersionResource → Option String → String → Action S (Option E)
  pub get_job : String → String → Action S (Reply E Job)
  pub list_pods : String → String → Action S (Reply E (List Pod))
  pub get_logs : String → String → String → ℕ → Action S (Reply E String)
  pub create_secret : String → Secret → Action S (Reply E Secret)
  pub get_secret : String → String → Action S (Reply E Secret)
  pub delete_secret : String → String → Action S (Option E)
