-- ===== src/Provider/BackupJob.antt =====
-- provider/backupjob.go
use managed_services_lib.Common.{String, Bool, true, false}
use managed_services_lib.Model.Contract.{BackupId, BackupStatus}
use managed_services_lib.JobRunner.Types.{JobState, JobPhase, succeeded, failed}
use managed_services_lib.Provider.ServiceJob.{service_job_name, job_op_backup, job_op_delete_backup}

unfoldable pub backup_job_name : BackupId → String
unfolding service_job_name
backup_job_name id = service_job_name job_op_backup id

unfoldable pub delete_backup_job_name : BackupId → String
unfolding service_job_name
delete_backup_job_name id = service_job_name job_op_delete_backup id

abbrev is_succeeded : JobPhase → Bool
is_succeeded succeeded = true
is_succeeded _ = false

abbrev failure : JobPhase → String → String
failure failed reason = reason
failure _ reason = ""

unfoldable pub backup_status_from_job : JobState → BackupStatus
backup_status_from_job s = record {
  exists = is_succeeded s.phase;
  error = failure s.phase s.reason;
}
