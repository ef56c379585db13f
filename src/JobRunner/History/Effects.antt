-- ===== src/JobRunner/History/Effects.antt =====
-- client/jobrunner.go: what each call of the runner does to the Secrets of the cluster, whether it
-- succeeds or not.
use Prim.Native.String as Text
use managed_services_lib.Common.{String, ◌≡◌, refl, ◌⊎◌, inl, inr, none, some, List, [], ◌∷◌, arith}
use managed_services_lib.Failure.{Result-cases}
use managed_services_lib.Model.Kubernetes.{job_api}
use managed_services_lib.Client.Types.{Pod, Job}
use managed_services_lib.Client.Api.{KubernetesClient, Objects}
use managed_services_lib.JobRunner.Types.{JobSpec, job_container_name, failure_log_tail_lines}
use managed_services_lib.JobRunner.Build.{build_job, build_job_secret}
use managed_services_lib.JobRunner.Cluster.{ClusterView}
use managed_services_lib.JobRunner.Dispatch.{
  job_ref, owner_patch, adopt_secret, ensure_secret, create_job, dispatch, run, delete,
}
use managed_services_lib.JobRunner.Inspect.{
  state, snapshot, failure_reason, failed_pod_logs, first_logs, sort_pods,
}
use managed_services_lib.JobRunner.History.{IsStore}

module _ {S U : Type 0} (objects : Objects U) (kube : KubernetesClient S U) (v : ClusterView S U)
    (k : IsStore kube v) where
  -- The Job step leaves every Secret's values alone.
  create_job-secret :
      (ns : String) (spec : JobSpec) (job : U) (s : S) (m name : String)
      → v.secret (create_job objects kube ns spec job s).1 m name ≡ v.secret s m name
  unfolding create_job adopt_secret
  create_job-secret ns spec job s m name = elim (Result-cases (kube.create job_api ns job s).0) [
    | inr (x, e) ↦ ground (arith, e, k.create_job ns job s m name)
    | inl (r, e) ↦ ground (
      arith,
      e,
      k.create_job ns job s m name,
      k.patch ns spec.name (owner_patch spec.name (objects.get_uid r))
          (kube.create job_api ns job s).1 m name,
    )
  ]

  pub dispatch-secret :
      (ns : String) (spec : JobSpec) (s : S) (m name : String)
      → v.secret (dispatch objects kube ns spec s).1 m name ≡ v.secret s m name
  unfolding dispatch
  dispatch-secret ns spec s m name = elim (Result-cases (build_job objects spec ns)) [
    | inr (x, e) ↦ ground (arith, e)
    | inl (job, e) ↦ ground (arith, e, create_job-secret ns spec job s m name)
  ]

  -- A Secret is as it was, or is that of the spec, with the spec's values.
  abbrev pub Dispatched : String → JobSpec → S → S → String → String → Type 0
  Dispatched ns spec s t m name =
      (v.secret t m name ≡ v.secret s m name)
      ⊎ ((m ≡ ns) × (name ≡ spec.name) × (v.secret t m name ≡ some spec.secrets))

  ensure_secret-Dispatched :
      (ns : String) (spec : JobSpec) (s : S) (m name : String)
      → Dispatched ns spec s (ensure_secret objects kube ns spec s).1 m name
  unfolding ensure_secret build_job_secret
  ensure_secret-Dispatched ns spec s m name =
      ground (arith, k.create_secret ns (build_job_secret spec ns) s m name)

  pub run-Dispatched :
      (ns : String) (spec : JobSpec) (s : S) (m name : String)
      → Dispatched ns spec s (run objects kube ns spec s).1 m name
  unfolding run
  run-Dispatched ns spec s m name = ground (
    arith,
    ensure_secret-Dispatched ns spec s m name,
    dispatch-secret ns spec (ensure_secret objects kube ns spec s).1 m name,
  )

  -- A deletion changes no Secret but by removing it.
  pub delete-secret :
      (ns job : String) (s : S) (m name : String)
      → (v.secret (delete objects kube ns job s).1 m name ≡ v.secret s m name)
        ⊎ (v.secret (delete objects kube ns job s).1 m name ≡ none)
  unfolding delete
  delete-secret ns job s m name = ground (
    arith,
    k.delete_job ns job s m name,
    k.delete_secret ns job (kube.delete (job_ref ns job) s).1 m name,
  )

  -- A poll changes nothing.
  first_logs-same : (ns : String) (pods : List Pod) (s : S) → (first_logs kube ns pods s).1 ≡ s
  unfolding first_logs
  first_logs-same ns [] s = refl
  first_logs-same ns (p ∷ ps) s =
      let after : S = (kube.get_pod_logs ns p.name job_container_name failure_log_tail_lines s).1 in
      ground (
        arith,
        k.get_pod_logs ns p.name job_container_name failure_log_tail_lines s,
        first_logs-same ns ps after,
      )

  failure_reason-same : (job : Job) (s : S) → (failure_reason kube job s).1 ≡ s
  unfolding failure_reason failed_pod_logs
  failure_reason-same job s =
      let selector : String = Text.◌++◌ "job-name=" job.name in
      elim (Result-cases (kube.list_pods job.namespace selector s).0) [
        | inr (x, e) ↦ ground (arith, e, k.list_pods job.namespace selector s)
        | inl (pods, e) ↦ ground (
          arith,
          e,
          k.list_pods job.namespace selector s,
          first_logs-same job.namespace (sort_pods pods)
              (kube.list_pods job.namespace selector s).1,
        )
      ]

  pub state-same : (ns name : String) (s : S) → (state kube ns name s).1 ≡ s
  unfolding state snapshot
  state-same ns name s = elim (Result-cases (kube.get_job ns name s).0) [
    | inr (x, e) ↦ ground (arith, e, k.get_job ns name s)
    | inl (job, e) ↦
        ground (arith, e, k.get_job ns name s, failure_reason-same job (kube.get_job ns name s).1)
  ]
