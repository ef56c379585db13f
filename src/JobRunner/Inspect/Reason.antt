-- ===== src/JobRunner/Inspect/Reason.antt =====
-- client/jobrunner.go: `State` gives a reason exactly for a failed Job, and no zero times.
use Prim.Native.String as Text
use text.Mathlib.TextLemmas.{append-eq-nil_iff}
use managed_services_lib.Common.{String, ◌≡◌, ◌≢◌, ◌↔◌, some, List, [], ◌∷◌, eq_iff, arith, ◌<◌}
use managed_services_lib.Common.Time.{Time}
use managed_services_lib.Client.Types.{Job, JobCondition}
use managed_services_lib.Client.Api.{KubernetesClient}
use managed_services_lib.JobRunner.Types.{failed}
use managed_services_lib.JobRunner.Inspect.{
  condition_message, failure_reason, snapshot, time_ptr, condition_time, join_reason,
  failed_pod_logs, job_failed,
}

condition_message-ne-nil : (t : String) (cs : List JobCondition) → condition_message t cs ≢ ""
unfolding condition_message
condition_message-ne-nil t [] = ground (arith, eq_iff "unknown reason" "")
condition_message-ne-nil t (c ∷ cs) =
    ground (arith, condition_message-ne-nil t cs, eq_iff c.message "", eq_iff c.reason "")

join_reason-ne-nil : (reason logs : String) → reason ≢ "" → join_reason reason logs ≢ ""
join_reason-ne-nil reason logs h = ground (
  arith,
  eq_iff logs "",
  eq_iff reason "",
  append-eq-nil_iff {p = reason} {q = Text.◌++◌ ": " logs},
)

module _ {S U : Type 0} (kube : KubernetesClient S U) where
  failure_reason-ne-nil : (job : Job) (s : S) → (failure_reason kube job s).0 ≢ ""
  unfolding failure_reason
  failure_reason-ne-nil job s =
      join_reason-ne-nil (condition_message job_failed job.status.conditions)
        (failed_pod_logs kube job.namespace job.name s).0
        (condition_message-ne-nil job_failed job.status.conditions)

  -- A snapshot has a reason exactly if its phase is failed.
  pub snapshot-reason :
      (job : Job) (s : S)
      → ((snapshot kube job s).0.phase ≡ failed) ↔ ((snapshot kube job s).0.reason ≢ "")
  unfolding snapshot
  snapshot-reason job s = ground (arith, failure_reason-ne-nil job s)

  condition_time_nonzero :
      (t : String) (cs : List JobCondition) (at : Time) → condition_time t cs ≡ some at → 0 < at
  unfolding condition_time time_ptr
  condition_time_nonzero t [] at h = ground arith
  condition_time_nonzero t (c ∷ cs) at h = ground (arith, condition_time_nonzero t cs at)

  -- A snapshot never reports Go's zero time as a start or an end.
  pub snapshot-times :
      (job : Job) (s : S)
      → ((snapshot kube job s).0.started_at ≢ some 0)
        × ((snapshot kube job s).0.finished_at ≢ some 0)
  unfolding snapshot time_ptr
  snapshot-times job s = ground (arith, condition_time_nonzero job_failed job.status.conditions 0)
