-- ===== src/Provider/ServiceJob/Status.antt =====
-- provider/servicejob.go, provider/backupjob.go over client/jobrunner.go: what the two statuses say of
-- the conditions of a Job.
use managed_services_lib.Common.{◌≡◌, ◌≢◌, ◌↔◌, Bool, true, not, ◌&&◌, arith}
use managed_services_lib.Client.Types.{Job}
use managed_services_lib.Client.Api.{KubernetesClient}
use managed_services_lib.JobRunner.Inspect.{snapshot, condition_true, job_complete, job_failed}
use managed_services_lib.JobRunner.Inspect.Reason.{snapshot-reason}
use managed_services_lib.Provider.ServiceJob.{OperationPhase, operation_status_from_job}
use managed_services_lib.Provider.BackupJob.{backup_status_from_job}

abbrev pub is_complete : Job → Bool
is_complete job = condition_true job_complete job.status.conditions

-- The Job has failed, and is not complete as well.
abbrev pub has_failed : Job → Bool
has_failed job = not (is_complete job) && condition_true job_failed job.status.conditions

-- The two statuses of the snapshot of a Job say the same, and what its conditions say. The backup
-- exists exactly if the Job is complete, and so is the operation; the operation has failed exactly if
-- the Job has failed and is not complete; and the two statuses carry the same error, which is there
-- exactly if the Job has failed and is not complete.
pub statuses_of_conditions :
    {S U : Type 0} (kube : KubernetesClient S U) (job : Job) (s : S)
    → ((backup_status_from_job (snapshot kube job s).0).exists ≡ is_complete job)
      × (((operation_status_from_job (snapshot kube job s).0).phase ≡ OperationPhase.completed)
          ↔ (is_complete job ≡ true))
      × (((operation_status_from_job (snapshot kube job s).0).phase ≡ OperationPhase.failed)
          ↔ (has_failed job ≡ true))
      × ((backup_status_from_job (snapshot kube job s).0).error
          ≡ (operation_status_from_job (snapshot kube job s).0).error)
      × (((backup_status_from_job (snapshot kube job s).0).error ≢ "") ↔ (has_failed job ≡ true))
unfolding backup_status_from_job operation_status_from_job snapshot
statuses_of_conditions kube job s = ground (arith, snapshot-reason kube job s)
