-- ===== src/JobRunner/Available.antt =====
-- client/jobrunner.go over a cluster that answers: the runner's calls succeed.
use managed_services_lib.Common.{String, ◌≡◌, ◌⊎◌, true, none, some, arith, is_empty, if◌then◌else◌}
use managed_services_lib.Model.Kubernetes.{job_api}
use managed_services_lib.Failure.{Error, ok, err, is, resource_conflict, resource_not_found}
use managed_services_lib.Client.Types.{Secret, Job}
use managed_services_lib.Client.Api.{KubernetesClient, Objects}
use managed_services_lib.JobRunner.Types.{JobSpec}
use managed_services_lib.JobRunner.Build.{build_job, build_job_secret, plain_job, customized}
use managed_services_lib.JobRunner.Cluster.{ClusterView, IsCluster}
use managed_services_lib.JobRunner.Contract.{KeepsName, replace_ok}
use managed_services_lib.JobRunner.Dispatch.{
  job_ref, ensure_secret, create_job, dispatch, run, delete, replace,
}

-- Every call is answered, by success or by the 409 and 404 that the state of a name calls for, and
-- every Job converts.
pub record IsAvailable {S U : Type 0} (objects : Objects U) (kube : KubernetesClient S U)
    : Type 0 where
  pub converts : (job : Job) → (u : U) × (objects.to_unstructured job ≡ ok u)
  pub create_job :
      (ns : String) (u : U) (s : S)
      → ((r : U) × ((kube.create job_api ns u s).0 ≡ ok r))
        ⊎ ((e : Error) × ((kube.create job_api ns u s).0 ≡ err e) × (is e resource_conflict ≡ true))
  pub create_secret :
      (ns : String) (secret : Secret) (s : S)
      → ((r : Secret) × ((kube.create_secret ns secret s).0 ≡ ok r))
        ⊎ ((e : Error) × ((kube.create_secret ns secret s).0 ≡ err e)
            × (is e resource_conflict ≡ true))
  pub delete_job :
      (ns name : String) (s : S)
      → ((kube.delete (job_ref ns name) s).0 ≡ none)
        ⊎ ((e : Error) × ((kube.delete (job_ref ns name) s).0 ≡ some e)
            × (is e resource_not_found ≡ true))
  pub delete_secret :
      (ns name : String) (s : S)
      → ((kube.delete_secret ns name s).0 ≡ none)
        ⊎ ((e : Error) × ((kube.delete_secret ns name s).0 ≡ some e)
            × (is e resource_not_found ≡ true))

module _ {S U : Type 0} (objects : Objects U) (kube : KubernetesClient S U)
    (a : IsAvailable objects kube) where
  pub ensure_secret-none :
      (ns : String) (spec : JobSpec) (s : S) → (ensure_secret objects kube ns spec s).0 ≡ none
  unfolding ensure_secret
  ensure_secret-none ns spec s = ground (arith, a.create_secret ns (build_job_secret spec ns) s)

  dispatch-none :
      (ns : String) (spec : JobSpec) (s : S) → (dispatch objects kube ns spec s).0 ≡ none
  unfolding dispatch create_job build_job
  dispatch-none ns spec s =
      let (u, e) = a.converts (customized spec.customize (plain_job spec ns)) in
      ground (arith, e, a.create_job ns u s)

  run-none : (ns : String) (spec : JobSpec) (s : S) → (run objects kube ns spec s).0 ≡ none
  unfolding run
  run-none ns spec s = ground (
    arith,
    ensure_secret-none ns spec s,
    dispatch-none ns spec (ensure_secret objects kube ns spec s).1,
  )

  pub delete-none : (ns name : String) (s : S) → (delete objects kube ns name s).0 ≡ none
  unfolding delete
  delete-none ns name s =
      ground
        (arith, a.delete_job ns name s, a.delete_secret ns name (kube.delete (job_ref ns name) s).1)

  pub replace-none :
      (ns : String) (spec : JobSpec) (s : S) → (replace objects kube ns spec s).0 ≡ none
  unfolding replace
  replace-none ns spec s =
      ground
        (arith, delete-none ns spec.name s, run-none ns spec (delete objects kube ns spec.name s).1)

  module _ (v : ClusterView S U) (c : IsCluster objects kube v) where
    -- On a cluster that answers its calls, and where `Customize` keeps the name, `Run`, `Delete`
    -- and `Replace` never return an error, whatever is there: neither a Job or a Secret of the name
    -- nor the lack of one stands in their way. `Replace` then ends with a Job of the name and
    -- exactly the secrets of the new spec.
    pub calls_succeed :
        (ns : String) (spec : JobSpec) (s : S)
        → KeepsName spec ns
        → ((run objects kube ns spec s).0 ≡ none)
          × ((delete objects kube ns spec.name s).0 ≡ none)
          × ((replace objects kube ns spec s).0 ≡ none)
          × (v.has_job (replace objects kube ns spec s).1 ns spec.name ≡ true)
          × (v.secret (replace objects kube ns spec s).1 ns spec.name
              ≡ (if is_empty spec.secrets then none else some spec.secrets))
    calls_succeed ns spec s keeps =
        let done = replace-none ns spec s in
        let (there, secret) = replace_ok objects kube v c ns spec s keeps done in
        (run-none ns spec s, delete-none ns spec.name s, done, there, secret)
