-- ===== src/JobRunner/Isolation.antt =====
-- client/jobrunner.go over a cluster: a call for one name touches no other.
use managed_services_lib.Common.{String, ◌≡◌, ◌≢◌, ◌⊎◌, inl, inr, Bool, Option, arith, List}
use managed_services_lib.Common.StringMap.{StringMap}
use managed_services_lib.Model.Kubernetes.{K8sPatch, job_api}
use managed_services_lib.Failure.{Result-cases}
use managed_services_lib.Client.Types.{Secret}
use managed_services_lib.Client.Api.{KubernetesClient, Objects}
use managed_services_lib.JobRunner.Types.{JobSpec}
use managed_services_lib.JobRunner.Build.{build_job, build_job_secret}
use managed_services_lib.JobRunner.Cluster.{ClusterView, IsCluster}
use managed_services_lib.JobRunner.Contract.{KeepsName, build_job-name}
use managed_services_lib.JobRunner.Dispatch.{
  job_ref, secret_ref, adopt_secret, ensure_secret, create_job, dispatch, run, delete, replace,
  owner_patch,
}

-- Another name, or the same in another namespace.
abbrev pub Other : String → String → String → String → Type 0
Other ns name m n = (ns ≢ m) ⊎ (name ≢ n)

module _ {S U : Type 0} (v : ClusterView S U) where
  -- What can be seen under a name.
  abbrev pub seen : S → String → String → Bool × Option (StringMap String)
  seen s m n = (v.has_job s m n, v.secret s m n)

  -- A call for an object, answered by success or by an error, leaves what is seen under any other name.
  pub record IsLocal (kube : KubernetesClient S U) : Type 0 where
    pub create_job :
        (ns : String) (u : U) (s : S) (m n : String)
        → Other ns (v.name_of u) m n
        → seen (kube.create job_api ns u s).1 m n ≡ seen s m n
    pub create_secret :
        (ns : String) (secret : Secret) (s : S) (m n : String)
        → Other ns secret.name m n
        → seen (kube.create_secret ns secret s).1 m n ≡ seen s m n
    pub patch_secret :
        (ns name : String) (patches : List K8sPatch) (s : S) (m n : String)
        → Other ns name m n
        → seen (kube.patch (secret_ref ns name) patches s).1 m n ≡ seen s m n
    pub delete_job :
        (ns name : String) (s : S) (m n : String)
        → Other ns name m n
        → seen (kube.delete (job_ref ns name) s).1 m n ≡ seen s m n
    pub delete_secret :
        (ns name : String) (s : S) (m n : String)
        → Other ns name m n
        → seen (kube.delete_secret ns name s).1 m n ≡ seen s m n

  module _ (objects : Objects U) (kube : KubernetesClient S U) (c : IsCluster objects kube v)
      (l : IsLocal kube) (ns m n : String) where
    ensure_secret-Other :
        (spec : JobSpec) (s : S)
        → Other ns spec.name m n
        → seen (ensure_secret objects kube ns spec s).1 m n ≡ seen s m n
    unfolding ensure_secret build_job_secret
    ensure_secret-Other spec s other =
        ground (arith, l.create_secret ns (build_job_secret spec ns) s m n other)

    create_job-Other :
        (spec : JobSpec) (u : U) (s : S)
        → v.name_of u ≡ spec.name
        → Other ns spec.name m n
        → seen (create_job objects kube ns spec u s).1 m n ≡ seen s m n
    unfolding create_job adopt_secret
    create_job-Other spec u s named other = elim (Result-cases (kube.create job_api ns u s).0) [
      | inl (r, e) ↦ ground (
        arith,
        e,
        l.create_job ns u s m n (rw named other),
        l.patch_secret ns spec.name (owner_patch spec.name (objects.get_uid r))
            (kube.create job_api ns u s).1 m n other,
      )
      | inr (x, e) ↦ ground (arith, e, l.create_job ns u s m n (rw named other))
    ]

    dispatch-Other :
        (spec : JobSpec) (s : S)
        → KeepsName spec ns
        → Other ns spec.name m n
        → seen (dispatch objects kube ns spec s).1 m n ≡ seen s m n
    unfolding dispatch
    dispatch-Other spec s keeps other = elim (Result-cases (build_job objects spec ns)) [
      | inl (u, e) ↦ ground (
        arith,
        e,
        create_job-Other spec u s (build_job-name objects kube v c ns spec u keeps e) other,
      )
      | inr (x, e) ↦ ground (arith, e)
    ]

    pub run-Other :
        (spec : JobSpec) (s : S)
        → KeepsName spec ns
        → Other ns spec.name m n
        → seen (run objects kube ns spec s).1 m n ≡ seen s m n
    unfolding run
    run-Other spec s keeps other = ground (
      arith,
      ensure_secret-Other spec s other,
      dispatch-Other spec (ensure_secret objects kube ns spec s).1 keeps other,
    )

    pub delete-Other :
        (name : String) (s : S)
        → Other ns name m n
        → seen (delete objects kube ns name s).1 m n ≡ seen s m n
    unfolding delete
    delete-Other name s other = ground (
      arith,
      l.delete_job ns name s m n other,
      l.delete_secret ns name (kube.delete (job_ref ns name) s).1 m n other,
    )

    pub replace-Other :
        (spec : JobSpec) (s : S)
        → KeepsName spec ns
        → Other ns spec.name m n
        → seen (replace objects kube ns spec s).1 m n ≡ seen s m n
    unfolding replace
    replace-Other spec s keeps other = ground (
      arith,
      delete-Other spec.name s other,
      run-Other spec (delete objects kube ns spec.name s).1 keeps other,
    )
