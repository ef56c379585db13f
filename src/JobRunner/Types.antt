-- ===== src/JobRunner/Types.antt =====
-- client/jobrunner.go: the phases, snapshots and specs of a Job.
use managed_services_lib.Common.{ℕ, String, Option, List, ◌*◌, ◌^◌}
use managed_services_lib.Common.Int.{ℤ, pos}
use managed_services_lib.Common.StringMap.{StringMap}
use managed_services_lib.Common.Time.{Time}
use managed_services_lib.Client.Types.{Job, ResourceRequirements}

-- `time.Duration`: an `int64` of nanoseconds.
abbrev pub Duration : Type 0
Duration = ℤ

abbrev pub second : ℕ
second = 10 ^ 9

abbrev pub default_job_timeout : Duration
default_job_timeout = pos (6 * 3600 * second)

abbrev pub default_job_ttl : Duration
default_job_ttl = pos (3600 * second)

abbrev pub default_job_backoff_limit : ℤ
default_job_backoff_limit = pos 3

abbrev pub job_container_name : String
job_container_name = "job"

abbrev pub failure_log_tail_lines : ℕ
failure_log_tail_lines = 20

pub data JobPhase : Type 0 where
  not_found pending running succeeded failed : JobPhase

pub record JobState : Type 0 where
  pub phase : JobPhase
  pub started_at : Option Time
  pub finished_at : Option Time
  pub reason : String

pub record JobSpec : Type 0 where
  pub name : String
  pub image : String
  pub command : List String
  pub args : List String
  pub env : StringMap String
  pub secrets : StringMap String
  pub labels : StringMap String
  pub image_pull_secrets : List String
  pub timeout : Duration
  pub ttl : Duration
  pub backoff_limit : Option ℤ
  pub resources : ResourceRequirements
  pub customize : Option (Job → Job)
