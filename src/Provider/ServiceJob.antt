-- ===== src/Provider/ServiceJob.antt =====
-- provider/servicejob.go: names, labels and statuses of detached operations.
pub mod Labels
pub mod Names
pub mod Isolation
pub mod Status
pub mod Times
use Prim.Native.String as Text
use managed_services_lib.Common.{
  String, Bool, ◌||◌, Option, none, some, List, [], ◌∷◌, ◌==◌, if◌then◌else◌, not,
}
use managed_services_lib.Common.Int.{pos}
use managed_services_lib.Common.StringMap.{StringMap, lookup, put, copy_into}
use managed_services_lib.Common.Time.{Time, format_rfc3339}
use managed_services_lib.Model.Kubernetes.{service_id_label, backup_id_label}
use managed_services_lib.Client.Types.{ResourceRequirements}
use managed_services_lib.JobRunner.Types.{JobSpec, JobState, JobPhase}

abbrev pub job_op_backup : String
job_op_backup = "backup"

abbrev pub job_op_delete_backup : String
job_op_delete_backup = "delete-backup"

abbrev pub job_op_restore : String
job_op_restore = "restore"

abbrev pub operation_key_labels : StringMap String
operation_key_labels =
    (job_op_backup, backup_id_label) ∷ (job_op_delete_backup, backup_id_label) ∷ []

pub record ServiceJob : Type 0 where
  pub operation : String
  pub ms_id : String
  pub key : String
  pub image : String
  pub command : List String
  pub env : StringMap String
  pub secrets : StringMap String
  pub labels : StringMap String
  pub image_pull_secrets : List String
  pub resources : ResourceRequirements

unfoldable pub service_job_name : String → String → String
service_job_name operation key = Text.◌++◌ operation (Text.◌++◌ "-" key)

-- `operationKeyLabels[op]`, empty for an operation that is not in the map.
unfoldable pub key_label : String → String
unfolding lookup
key_label operation = elim (lookup operation operation_key_labels) [ none ↦ "" | some l ↦ l ]

unfoldable pub identity_labels : ServiceJob → StringMap String
identity_labels j =
    let labels = put service_id_label j.ms_id (copy_into [] j.labels) in
    let label = key_label j.operation in
    if not (label == "") then put label j.key labels else labels

unfoldable pub service_job_spec : ServiceJob → JobSpec
service_job_spec j = record {
  name = service_job_name j.operation j.key;
  image = j.image;
  command = j.command;
  args = [];
  env = j.env;
  secrets = j.secrets;
  labels = identity_labels j;
  image_pull_secrets = j.image_pull_secrets;
  timeout = pos 0;
  ttl = pos 0;
  backoff_limit = none;
  resources = j.resources;
  customize = none;
}

pub data OperationPhase : Type 0 where
  pending running completed failed : OperationPhase

pub record OperationStatus : Type 0 where
  pub phase : OperationPhase
  pub started_at : String
  pub completed_at : String
  pub error : String

unfoldable pub format_time : Option Time → String
unfolding format_rfc3339
format_time none = ""
format_time (some t) = format_rfc3339 t

-- The switch on the phase.
abbrev with_phase : JobPhase → String → OperationStatus → OperationStatus
with_phase JobPhase.running reason status = record status { phase = OperationPhase.running }
with_phase JobPhase.succeeded reason status = record status { phase = OperationPhase.completed }
with_phase JobPhase.failed reason status = record status {
  phase = OperationPhase.failed;
  error = reason;
}
with_phase JobPhase.pending reason status = status
with_phase JobPhase.not_found reason status = status

unfoldable pub operation_status_from_job : JobState → OperationStatus
operation_status_from_job s = with_phase s.phase s.reason (record {
  phase = OperationPhase.pending;
  started_at = format_time s.started_at;
  completed_at = format_time s.finished_at;
  error = "";
})
