-- ===== src/JobRunner/History.antt =====
-- client/jobrunner.go over time: calls of the runner in any order, with any outcome, interleaved with
-- what the cluster does by itself.
pub mod Effects
pub mod Provenance
pub mod Order
use managed_services_lib.Common.{true, ℕ, String, ◌≡◌, ◌⊎◌, Bool, Option, none, some, List, [], ◌∷◌}
use managed_services_lib.Common.StringMap.{StringMap}
use managed_services_lib.Model.Kubernetes.{K8sPatch, job_api}
use managed_services_lib.Client.Types.{Secret}
use managed_services_lib.Client.Api.{KubernetesClient, Objects}
use managed_services_lib.JobRunner.Types.{JobSpec}
use managed_services_lib.JobRunner.Cluster.{ClusterView}
use managed_services_lib.JobRunner.Dispatch.{job_ref, secret_ref, run, delete, replace}
use managed_services_lib.JobRunner.Inspect.{state}

-- What a call may do to the cluster whatever its reply is: a call that fails may have had its effect
-- all the same (a timeout), but no other one. The deletion of a Job may take Secrets with it.
pub record IsStore {S U : Type 0} (kube : KubernetesClient S U) (v : ClusterView S U) : Type 0 where
  pub create_secret :
      (ns : String) (secret : Secret) (s : S) (m name : String)
      → (v.secret (kube.create_secret ns secret s).1 m name ≡ v.secret s m name)
        ⊎ ((m ≡ ns)
            × (name ≡ secret.name)
            × (v.secret (kube.create_secret ns secret s).1 m name ≡ some secret.string_data))
  pub create_secret_jobs :
      (ns : String) (secret : Secret) (s : S) (m name : String)
      → v.has_job (kube.create_secret ns secret s).1 m name ≡ v.has_job s m name
  pub create_job :
      (ns : String) (u : U) (s : S) (m name : String)
      → v.secret (kube.create job_api ns u s).1 m name ≡ v.secret s m name
  pub create_job_jobs :
      (ns : String) (u : U) (s : S) (m name : String)
      → (v.has_job (kube.create job_api ns u s).1 m name ≡ v.has_job s m name)
        ⊎ (v.has_job (kube.create job_api ns u s).1 m name ≡ true)
  pub patch :
      (ns secret : String) (patches : List K8sPatch) (s : S) (m name : String)
      → v.secret (kube.patch (secret_ref ns secret) patches s).1 m name ≡ v.secret s m name
  pub delete_job :
      (ns job : String) (s : S) (m name : String)
      → (v.secret (kube.delete (job_ref ns job) s).1 m name ≡ v.secret s m name)
        ⊎ (v.secret (kube.delete (job_ref ns job) s).1 m name ≡ none)
  pub delete_secret :
      (ns secret : String) (s : S) (m name : String)
      → (v.secret (kube.delete_secret ns secret s).1 m name ≡ v.secret s m name)
        ⊎ (v.secret (kube.delete_secret ns secret s).1 m name ≡ none)
  pub get_job : (ns name : String) (s : S) → (kube.get_job ns name s).1 ≡ s
  pub list_pods : (ns selector : String) (s : S) → (kube.list_pods ns selector s).1 ≡ s
  pub get_pod_logs :
      (ns pod container : String) (tail : ℕ) (s : S)
      → (kube.get_pod_logs ns pod container tail s).1 ≡ s

-- The histories that lead from one state of the cluster to another, with the dispatched specs, the
-- latest first. `Moves` is what the cluster does by itself.
module _ {S U : Type 0} (objects : Objects U) (kube : KubernetesClient S U)
    (Moves : S → S → Type 0) where
  pub data History (s : S) : List (String × JobSpec) → S → Type 0 where
    start : History s [] s
    runs :
        {d : List (String × JobSpec)} {t : S} (ns : String) (spec : JobSpec)
        → History s d t
        → History s ((ns, spec) ∷ d) (run objects kube ns spec t).1
    replaces :
        {d : List (String × JobSpec)} {t : S} (ns : String) (spec : JobSpec)
        → History s d t
        → History s ((ns, spec) ∷ d) (replace objects kube ns spec t).1
    deletes :
        {d : List (String × JobSpec)} {t : S} (ns name : String)
        → History s d t
        → History s d (delete objects kube ns name t).1
    polls :
        {d : List (String × JobSpec)} {t : S} (ns name : String)
        → History s d t
        → History s d (state kube ns name t).1
    moves : {d : List (String × JobSpec)} {t u : S} → History s d t → Moves t u → History s d u
