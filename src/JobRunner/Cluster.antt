-- ===== src/JobRunner/Cluster.antt =====
-- What `JobRunner` relies on of the cluster behind its `KubernetesClient`: the documented behaviour
-- of the Kubernetes API on Jobs and Secrets, as a record of hypotheses. A call may fail at any time;
-- nothing is assumed of the world after a failure other than 404 and 409. A deleted Job may stay
-- for a while (a finalizer, foreground propagation) and then keeps its name taken.
pub mod Api
pub mod Server
pub mod Conflict
use managed_services_lib.Common.{String, ◌≡◌, ◌≢◌, Bool, true, false, Option, none, some, List}
use managed_services_lib.Common.StringMap.{StringMap}
use managed_services_lib.Model.Kubernetes.{K8sPatch, job_api}
use managed_services_lib.Failure.{Error, ok, err, is, resource_conflict, resource_not_found}
use managed_services_lib.Client.Types.{Secret, Job}
use managed_services_lib.Client.Api.{KubernetesClient, Objects}
use managed_services_lib.JobRunner.Dispatch.{secret_ref}

-- What can be seen of the cluster: whether a Job's name is taken, and the values of a Secret.
pub record ClusterView (S U : Type 0) : Type 0 where
  pub has_job : S → String → String → Bool
  pub secret : S → String → String → Option (StringMap String)
  pub name_of : U → String

pub record IsCluster {S U : Type 0} (objects : Objects U) (kube : KubernetesClient S U)
    (v : ClusterView S U) : Type 0 where
  -- The converter keeps the name.
  pub converted_name :
      (job : Job) (u : U) → objects.to_unstructured job ≡ ok u → v.name_of u ≡ job.name
  -- 201: the name was free and is taken now.
  pub job_created :
      (ns : String) (u r : U) (s : S)
      → (kube.create job_api ns u s).0 ≡ ok r
      → (v.has_job s ns (v.name_of u) ≡ false)
        × (v.has_job (kube.create job_api ns u s).1 ns (v.name_of u) ≡ true)
  pub job_created_secret :
      (ns : String) (u r : U) (s : S) (name : String)
      → (kube.create job_api ns u s).0 ≡ ok r
      → v.secret (kube.create job_api ns u s).1 ns name ≡ v.secret s ns name
  -- 409: the name is taken, and nothing changes.
  pub job_conflict :
      (ns : String) (u : U) (e : Error) (s : S)
      → (kube.create job_api ns u s).0 ≡ err e
      → is e resource_conflict ≡ true
      → ((kube.create job_api ns u s).1 ≡ s) × (v.has_job s ns (v.name_of u) ≡ true)
  pub secret_created :
      (ns : String) (secret r : Secret) (s : S)
      → (kube.create_secret ns secret s).0 ≡ ok r
      → (v.secret s ns secret.name ≡ none)
        × (v.secret (kube.create_secret ns secret s).1 ns secret.name ≡ some secret.string_data)
  pub secret_conflict :
      (ns : String) (secret : Secret) (e : Error) (s : S)
      → (kube.create_secret ns secret s).0 ≡ err e
      → is e resource_conflict ≡ true
      → ((kube.create_secret ns secret s).1 ≡ s) × (v.secret s ns secret.name ≢ none)
  -- A patch of a Secret's metadata changes neither its values nor the Jobs.
  pub secret_patched :
      (ns name : String) (patches : List K8sPatch) (s : S)
      → (v.has_job (kube.patch (secret_ref ns name) patches s).1 ns name ≡ v.has_job s ns name)
        × (v.secret (kube.patch (secret_ref ns name) patches s).1 ns name ≡ v.secret s ns name)
  -- After the deletion of a Secret, or a 404, there is none.
  pub secret_deleted :
      (ns name : String) (s : S)
      → (kube.delete_secret ns name s).0 ≡ none
      → v.secret (kube.delete_secret ns name s).1 ns name ≡ none
  pub secret_missing :
      (ns name : String) (e : Error) (s : S)
      → (kube.delete_secret ns name s).0 ≡ some e
      → is e resource_not_found ≡ true
      → v.secret (kube.delete_secret ns name s).1 ns name ≡ none
