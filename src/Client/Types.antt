-- ===== src/Client/Types.antt =====
-- The Kubernetes structs (k8s.io/api) that the program builds and reads, with the fields that it
-- sets or looks at. A nil map is an empty one.
use managed_services_lib.Common.{ℕ, String, Option, List}
use managed_services_lib.Common.Int.{ℤ}
use managed_services_lib.Common.StringMap.{StringMap}
use managed_services_lib.Common.Time.{Time}

-- `corev1.Secret`
pub record Secret : Type 0 where
  pub name : String
  pub namespace : String
  pub labels : StringMap String
  pub type : String
  pub string_data : StringMap String
  pub binary_data : StringMap (List ℕ)

-- `corev1.Pod`
pub record Pod : Type 0 where
  pub name : String
  pub creation_timestamp : Time

-- `corev1.EnvVar`: a value, or a reference to a key of a Secret.
pub data EnvSource : Type 0 where
  plain : String → EnvSource
  secret_key_ref : (secret key : String) → EnvSource

pub record EnvVar : Type 0 where
  pub name : String
  pub source : EnvSource

-- `corev1.ResourceRequirements`
pub record ResourceRequirements : Type 0 where
  pub limits : StringMap String
  pub requests : StringMap String

-- `corev1.Container`
pub record Container : Type 0 where
  pub name : String
  pub image : String
  pub image_pull_policy : String
  pub command : List String
  pub args : List String
  pub env : List EnvVar
  pub resources : ResourceRequirements

-- `batchv1.JobCondition`
pub record JobCondition : Type 0 where
  pub type : String
  pub status : String
  pub reason : String
  pub message : String
  pub last_transition_time : Time

-- `batchv1.JobStatus`; `metav1.Time` may hold the zero time.
pub record JobStatus : Type 0 where
  pub conditions : List JobCondition
  pub start_time : Option Time
  pub completion_time : Option Time
  pub active : ℤ

-- `batchv1.Job`, its pod template flattened.
pub record Job : Type 0 where
  pub api_version : String
  pub kind : String
  pub name : String
  pub namespace : String
  pub labels : StringMap String
  pub ttl_seconds_after_finished : ℤ
  pub active_deadline_seconds : ℕ
  pub backoff_limit : ℤ
  pub template_labels : StringMap String
  pub restart_policy : String
  pub image_pull_secrets : List String
  pub containers : List Container
  pub status : JobStatus
