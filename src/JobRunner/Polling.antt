-- ===== src/JobRunner/Polling.antt =====
-- client/jobrunner.go: `State` polled for a Job that `Run` or `Replace` has dispatched.
use managed_services_lib.Common.{String, ◌≡◌, ◌≢◌, ◌↔◌, true, false, none, arith, ◌⊎◌, inl, inr}
use managed_services_lib.Failure.{Error, ok, err, is, resource_not_found, Result-cases}
use managed_services_lib.Client.Types.{Job}
use managed_services_lib.Client.Api.{KubernetesClient, Objects}
use managed_services_lib.JobRunner.Types.{JobSpec, JobState, not_found}
use managed_services_lib.JobRunner.Cluster.{ClusterView, IsCluster}
use managed_services_lib.JobRunner.Contract.{KeepsName, run_ok, replace_ok}
use managed_services_lib.JobRunner.Dispatch.{run, replace}
use managed_services_lib.JobRunner.Inspect.{state, snapshot}

module _ {S U : Type 0} (kube : KubernetesClient S U) (v : ClusterView S U) where
  -- A Job is read only if it is there, and 404 is answered only if it is not.
  pub record IsReadable : Type 0 where
    pub job_read :
        (ns name : String) (job : Job) (s : S)
        → (kube.get_job ns name s).0 ≡ ok job
        → v.has_job s ns name ≡ true
    pub job_missing :
        (ns name : String) (e : Error) (s : S)
        → (kube.get_job ns name s).0 ≡ err e
        → is e resource_not_found ≡ true
        → v.has_job s ns name ≡ false

  snapshot_found : (job : Job) (s : S) → (snapshot kube job s).0.phase ≢ not_found
  unfolding snapshot
  snapshot_found job s = ground arith

  module _ (readable : IsReadable) where
    -- `not_found` is the answer exactly if there is no Job.
    state-has_job :
        (ns name : String) (s : S) (st : JobState)
        → (state kube ns name s).0 ≡ ok st
        → (st.phase ≡ not_found) ↔ (v.has_job s ns name ≡ false)
    unfolding state
    state-has_job ns name s st h = elim (Result-cases (kube.get_job ns name s).0) [
      | inl (job, e) ↦ ground (
        arith,
        e,
        h,
        readable.job_read ns name job s e,
        snapshot_found job (kube.get_job ns name s).1,
      )
      | inr (x, e) ↦ ground (arith, e, h, readable.job_missing ns name x s e)
    ]

    module _ (objects : Objects U) (c : IsCluster objects kube v) where
      -- Where `Customize` keeps the name: after a `Run` or a `Replace` that returned no error, what
      -- `State` answers is never `not_found`, as long as the Job is not taken away: a poll does not
      -- lose an operation that was dispatched.
      pub dispatched-state :
          (ns : String) (spec : JobSpec) (s t : S) (st : JobState)
          → KeepsName spec ns
          → ((run objects kube ns spec s).0 ≡ none)
              × (v.has_job t ns spec.name ≡ v.has_job (run objects kube ns spec s).1 ns spec.name)
            ⊎ ((replace objects kube ns spec s).0 ≡ none)
              × (v.has_job t ns spec.name
                  ≡ v.has_job (replace objects kube ns spec s).1 ns spec.name)
          → (state kube ns spec.name t).0 ≡ ok st
          → st.phase ≢ not_found
      dispatched-state ns spec s t st keeps (inl (done, same)) polled = ground (
        arith,
        same,
        (run_ok objects kube v c ns spec s keeps done).0,
        state-has_job ns spec.name t st polled,
      )
      dispatched-state ns spec s t st keeps (inr (done, same)) polled = ground (
        arith,
        same,
        (replace_ok objects kube v c ns spec s keeps done).0,
        state-has_job ns spec.name t st polled,
      )
