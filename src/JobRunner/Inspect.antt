-- ===== src/JobRunner/Inspect.antt =====
-- client/jobrunner.go: `State` and what it reads, the conditions and the logs of failed pods.
pub mod Reason
pub mod Logs
pub mod Phases
use Prim.Native.String as Text
use managed_services_lib.Common.{
  String, Bool, false, not, ◌&&◌, Option, none, some, List, [], ◌∷◌, ◌==◌, if◌then◌else◌,
}
use managed_services_lib.Common.Int.{is_nonpos}
use managed_services_lib.Common.Time.{Time, is_zero, before}
use managed_services_lib.Failure.{Result, ok, err, is, wrapf, resource_not_found}
use managed_services_lib.Client.Types.{Pod, JobCondition, Job}
use managed_services_lib.Client.Api.{Action, KubernetesClient}
use managed_services_lib.JobRunner.Types.{
  JobState, not_found, pending, running, succeeded, failed, job_container_name,
  failure_log_tail_lines,
}

abbrev pub job_complete : String
job_complete = "Complete"

abbrev pub job_failed : String
job_failed = "Failed"

-- `timePtr`
unfoldable pub time_ptr : Option Time → Option Time
time_ptr none = none
time_ptr (some t) = if is_zero t then none else some t

-- `jobConditionTrue`: the first condition of the type decides.
unfoldable pub condition_true : String → List JobCondition → Bool
condition_true t [] = false
condition_true t (c ∷ cs) = if c.type == t then c.status == "True" else condition_true t cs

unfoldable pub condition_message : String → List JobCondition → String
condition_message t [] = "unknown reason"
condition_message t (c ∷ cs) =
    if not (c.type == t)
    then condition_message t cs
    else if not (c.message == "")
    then c.message
    else if not (c.reason == "")
    then c.reason
    else condition_message t cs

unfoldable pub condition_time : String → List JobCondition → Option Time
unfolding time_ptr
condition_time t [] = none
condition_time t (c ∷ cs) =
    if c.type == t && not (is_zero c.last_transition_time)
    then time_ptr (some c.last_transition_time)
    else condition_time t cs

-- One round of the sort by creation, newest first; pods created at one time keep their order.
unfoldable pub insert_pod : Pod → List Pod → List Pod
insert_pod p [] = p ∷ []
insert_pod p (q ∷ qs) =
    if before p.creation_timestamp q.creation_timestamp then q ∷ insert_pod p qs else p ∷ q ∷ qs

unfoldable pub sort_pods : List Pod → List Pod
unfolding insert_pod
sort_pods [] = []
sort_pods (p ∷ ps) = insert_pod p (sort_pods ps)

abbrev join_reason : String → String → String
join_reason reason logs =
    if logs == ""
    then reason
    else if reason == ""
    then logs
    else Text.◌++◌ reason (Text.◌++◌ ": " logs)

abbrev or_time : Option Time → Option Time → Option Time
or_time none u = u
or_time (some t) u = some t

module _ {S U : Type 0} (kube : KubernetesClient S U) where
  -- The loop of `failedPodLogs`.
  unfoldable pub first_logs : String → List Pod → Action S String
  first_logs ns [] s = ("", s)
  first_logs ns (p ∷ ps) s =
      let (r, s') = kube.get_pod_logs ns p.name job_container_name failure_log_tail_lines s in
      elim r [
        | ok logs ↦ if not (logs == "") then (logs, s') else first_logs ns ps s'
        | err e ↦ first_logs ns ps s'
      ]

  unfoldable pub failed_pod_logs : String → String → Action S String
  failed_pod_logs ns job_name s =
      let (r, s') = kube.list_pods ns (Text.◌++◌ "job-name=" job_name) s in
      elim r [ ok pods ↦ first_logs ns (sort_pods pods) s' | err e ↦ ("", s') ]

  unfoldable pub failure_reason : Job → Action S String
  failure_reason job s =
      let reason = condition_message job_failed job.status.conditions in
      let (logs, s') = failed_pod_logs job.namespace job.name s in (join_reason reason logs, s')

  -- The switch of `State`, on a Job that was read.
  unfoldable pub snapshot : Job → Action S JobState
  snapshot job s =
      let state : JobState = record {
        phase = pending;
        started_at = time_ptr job.status.start_time;
        finished_at = time_ptr job.status.completion_time;
        reason = "";
      } in
      if condition_true job_complete job.status.conditions
      then (record state { phase = succeeded }, s)
      else if condition_true job_failed job.status.conditions
      then (let (reason, s') = failure_reason job s in
          (
            record state {
              phase = failed;
              reason = reason;
              finished_at =
                  or_time state.finished_at (condition_time job_failed job.status.conditions);
            },
            s',
          ))
      else if not (is_nonpos job.status.active)
      then (record state { phase = running }, s)
      else (state, s)

  unfoldable pub state : String → String → Action S (Result JobState)
  state ns name s =
      let (r, s') = kube.get_job ns name s in
      elim r [
        | ok job ↦ let (st, s'') = snapshot job s' in (ok st, s'')
        | err e ↦
            if is e resource_not_found
            then (
              ok (record { phase = not_found; started_at = none; finished_at = none; reason = "" }),
              s',
            )
            else (err (wrapf (Text.◌++◌ "getting job " (Text.◌++◌ name ": ")) e ""), s')
      ]
