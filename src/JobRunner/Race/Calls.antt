-- ===== src/JobRunner/Race/Calls.antt =====
-- client/jobrunner.go: `Run`, `Replace` and `Delete` at the same time. `step` is such a call up to its
-- next call that changes the cluster.
use managed_services_lib.Common.{String, ◌≡◌, Option, none, some, arith}
use managed_services_lib.Failure.{Error}
use managed_services_lib.Client.Api.{Action, KubernetesClient, Objects}
use managed_services_lib.JobRunner.Types.{JobSpec}
use managed_services_lib.JobRunner.Dispatch.{
  job_ref, delete_failure, run, delete, replace, ensure_secret, dispatch, create_job,
}
use managed_services_lib.JobRunner.Race.{Phase, ready, returned, advance}

-- A call of the runner in a namespace.
pub data Call : Type 0 where
  runs replaces : JobSpec → Call
  deletes : String → Call

abbrev pub name_of : Call → String
name_of (runs spec) = spec.name
name_of (replaces spec) = spec.name
name_of (deletes name) = name

-- Where a call stands: `Delete` before its first call and between its two, and `Run`.
pub data Stage (U : Type 0) : Type 0 where
  deleting_job deleting_secret : Stage U
  running : Phase U → Stage U

abbrev pub first_stage : {U : Type 0} → Call → Stage U
first_stage (runs spec) = running ready
first_stage (replaces spec) = deleting_job
first_stage (deletes name) = deleting_job

-- What follows the deletion: `return r.Run(ctx, namespace, spec)`, or nothing.
abbrev pub after_delete : {U : Type 0} → Call → Stage U
after_delete (runs spec) = running ready
after_delete (replaces spec) = running ready
after_delete (deletes name) = running (returned none)

abbrev pub unless_failed : {U : Type 0} → Option Error → Stage U → Stage U
unless_failed none next = next
unless_failed (some e) next = running (returned (some e))

module _ {S U : Type 0} (objects : Objects U) (kube : KubernetesClient S U) (ns : String) where
  abbrev pub go_on : JobSpec → Phase U → S → Stage U × S
  go_on spec p s = let (q, t) = advance objects kube ns spec p s in (running q, t)

  unfoldable pub step : Call → Stage U → S → Stage U × S
  step c deleting_job s =
      let (e, t) = kube.delete (job_ref ns (name_of c)) s in
      (unless_failed (delete_failure objects kube "deleting job " (name_of c) e) deleting_secret, t)
  step c deleting_secret s =
      let (e, t) = kube.delete_secret ns (name_of c) s in
      (
        unless_failed
            (delete_failure objects kube "deleting credentials secret for job " (name_of c) e)
            (after_delete c),
        t,
      )
  step (runs spec) (running p) s = go_on spec p s
  step (replaces spec) (running p) s = go_on spec p s
  step (deletes name) (running p) s = (running p, s)

  -- The call as a whole.
  abbrev pub whole : Call → Action S (Option Error)
  whole (runs spec) = run objects kube ns spec
  whole (replaces spec) = replace objects kube ns spec
  whole (deletes name) = delete objects kube ns name

  abbrev pub next : Call → Stage U × S → Stage U × S
  next c (p, s) = step c p s

  -- Five steps of a `Run`, `Replace` or `Delete` that is not disturbed are the whole of the call, its
  -- error and what it does to the cluster.
  pub step-whole :
      (c : Call) (s : S)
      → next c (next c (next c (next c (next c (first_stage c, s)))))
        ≡ (running (returned (whole c s).0), (whole c s).1)
  unfolding step advance run ensure_secret dispatch create_job delete replace
  step-whole (runs spec) s = ground arith
  step-whole (replaces spec) s = ground arith
  step-whole (deletes name) s = ground arith
