-- ===== src/Tests/Polls.antt =====
-- A failed Job that is polled again later.
use managed_services_lib.Common.Time.{Time}
use managed_services_lib.Common.Time.RoundTrip.{read_rfc3339}
use managed_services_lib.Provider.ServiceJob.{OperationPhase, operation_status_from_job}
use managed_services_lib.Provider.ServiceJob.Status.{
  is_complete, has_failed, statuses_of_conditions,
}
use managed_services_lib.Provider.BackupJob.{backup_status_from_job}
use managed_services_lib.Provider.ServiceJob.Times.{in_seconds, read-operation_status_from_job}
use managed_services_lib.Common.{
  true, ◌↔◌, ◌*◌, ◌^◌, ◌+◌, some, arith, inl, ◌≢◌, if◌then◌else◌, ◌≡◌, refl, inr, none, [], ◌∷◌,
  ◌++◌,
}
use managed_services_lib.Common.Int.{pos}
use managed_services_lib.Client.Types.{JobStatus, JobCondition}
use managed_services_lib.JobRunner.Types.{succeeded, failed, not_found, JobState}
use managed_services_lib.Failure.{ok, err, is, sentinel, resource_not_found}
use managed_services_lib.Client.Types.{Job}
use managed_services_lib.Client.Api.{KubernetesClient}
use managed_services_lib.JobRunner.Build.{build_job, build_job_secret, plain_job}
use managed_services_lib.JobRunner.Cluster.{IsCluster}
use managed_services_lib.JobRunner.Dispatch.{run, ensure_secret, dispatch, create_job, adopt_secret}
use managed_services_lib.JobRunner.Polling.{IsReadable, dispatched-state}
use managed_services_lib.JobRunner.Inspect.{snapshot, condition_true, state}
use managed_services_lib.JobRunner.Inspect.Phases.{
  ControllerSteps, here, next, add, progress, snapshot-IsFinal,
}
use managed_services_lib.Tests.Memory.{World, view, objects, memory-IsCluster, empty, memory}
use managed_services_lib.Tests.Jobs.{failed_job, backup_spec, backup_name}

abbrev suspended : JobCondition
suspended = record {
  type = "Suspended";
  status = "True";
  reason = "";
  message = "";
  last_transition_time = 40;
}

abbrev later_status : JobStatus
later_status = record failed_job.status {
  conditions = failed_job.status.conditions ++ suspended ∷ [];
  start_time = none;
  active = pos 1;
}

later_steps : ControllerSteps failed_job.status later_status
later_steps = next (next here (add failed_job.status suspended (inr refl))) (
    progress
      (record failed_job.status { conditions = failed_job.status.conditions ++ suspended ∷ [] })
      none none (pos 1))

failed_now : (snapshot memory failed_job empty).0.phase ≡ failed
unfolding snapshot condition_true
failed_now = refl

snapshot-IsFinal_example :
    (snapshot memory (record failed_job { status = later_status }) empty).0.phase
    ≡ (snapshot memory failed_job empty).0.phase
snapshot-IsFinal_example =
    snapshot-IsFinal memory failed_job later_status empty empty later_steps (inr failed_now)

-- A cluster whose Jobs can be read: each has failed.
abbrev readable : KubernetesClient World Job
readable = record memory {
  get_job = λ ns name w.
      if w.taken ns name then (ok failed_job, w) else (err (sentinel resource_not_found), w);
}

readable-IsCluster : IsCluster objects readable view
readable-IsCluster = record {
  converted_name = memory-IsCluster.converted_name;
  job_created = memory-IsCluster.job_created;
  job_created_secret = memory-IsCluster.job_created_secret;
  job_conflict = memory-IsCluster.job_conflict;
  secret_created = memory-IsCluster.secret_created;
  secret_conflict = memory-IsCluster.secret_conflict;
  secret_patched = memory-IsCluster.secret_patched;
  secret_deleted = memory-IsCluster.secret_deleted;
  secret_missing = memory-IsCluster.secret_missing;
}

readable-IsReadable : IsReadable readable view
unfolding is
readable-IsReadable = record {
  job_read = λ ns name job s h. ground arith;
  job_missing = λ ns name e s h k. ground arith;
}

-- The cluster after a `Run`, and what a poll answers.
abbrev after_run : World
after_run = (run objects readable "rg-1" backup_spec empty).1

abbrev polled : JobState
polled = (snapshot readable failed_job after_run).0

ran : (run objects readable "rg-1" backup_spec empty).0 ≡ none
unfolding run ensure_secret dispatch create_job build_job build_job_secret is adopt_secret
ran = refl

answered : (state readable "rg-1" backup_spec.name after_run).0 ≡ ok polled
unfolding run ensure_secret dispatch create_job build_job build_job_secret is adopt_secret state
    plain_job
answered = refl

dispatched-state_example : polled.phase ≢ not_found
dispatched-state_example =
    dispatched-state readable view readable-IsReadable objects readable-IsCluster "rg-1" backup_spec
      empty after_run polled backup_name (inl (ran, refl)) answered

-- The status of an operation that ran from the first minute of 2025 for 90 seconds.
abbrev started : Time
started = 63871286400 * 10 ^ 9 + 5

abbrev ended : Time
ended = (63871286400 + 90) * 10 ^ 9

abbrev ran_for : JobState
ran_for = record {
  phase = succeeded;
  started_at = some started;
  finished_at = some ended;
  reason = "";
}

read-operation_status_from_job_example :
    (read_rfc3339 (operation_status_from_job ran_for).started_at ≡ in_seconds ran_for.started_at)
    × (read_rfc3339 (operation_status_from_job ran_for).completed_at
        ≡ in_seconds ran_for.finished_at)
read-operation_status_from_job_example =
    read-operation_status_from_job ran_for (omega arith) (omega arith)

statuses_of_conditions_example :
    ((backup_status_from_job (snapshot memory failed_job empty).0).exists ≡ is_complete failed_job)
    × (((operation_status_from_job (snapshot memory failed_job empty).0).phase
          ≡ OperationPhase.completed)
        ↔ (is_complete failed_job ≡ true))
    × (((operation_status_from_job (snapshot memory failed_job empty).0).phase
          ≡ OperationPhase.failed)
        ↔ (has_failed failed_job ≡ true))
    × ((backup_status_from_job (snapshot memory failed_job empty).0).error
        ≡ (operation_status_from_job (snapshot memory failed_job empty).0).error)
    × (((backup_status_from_job (snapshot memory failed_job empty).0).error ≢ "")
        ↔ (has_failed failed_job ≡ true))
statuses_of_conditions_example = statuses_of_conditions memory failed_job empty
