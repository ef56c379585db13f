-- ===== src/JobRunner/Cluster/Api.antt =====
-- What the client relies on of the API server behind it, for Jobs and Secrets.
use managed_services_lib.Common.{String, ◌≡◌, ◌≢◌, true, false, Option, none, some, List}
use managed_services_lib.Model.Kubernetes.{K8sPatch, job_api, secret_api}
use managed_services_lib.Failure.{ok}
use managed_services_lib.Client.Types.{Secret, Job}
use managed_services_lib.Client.Api.{Objects, ApiErrors, ApiServer, done, fail}
use managed_services_lib.Client.Kubernetes.{to_gvr, in_namespace}
use managed_services_lib.JobRunner.Cluster.{ClusterView}

-- The namespace that a call to the API server names, if it names one.
abbrev pub space : Option String → String
space none = ""
space (some ns) = ns

-- The documented behaviour of the API server on Jobs and Secrets. It may refuse any call, a creation
-- with 409 Conflict too, as it does while a resource quota is being updated.
pub record IsServer {S U E : Type 0} (objects : Objects U) (errors : ApiErrors E)
    (server : ApiServer S U E) (v : ClusterView S U) : Type 0 where
  -- The converter keeps the name.
  pub converted_name :
      (job : Job) (u : U) → objects.to_unstructured job ≡ ok u → v.name_of u ≡ job.name
  -- 201
  pub job_created :
      (n : Option String) (u r : U) (s : S)
      → (server.create (to_gvr job_api) n u s).0 ≡ done r
      → (v.has_job s (space n) (v.name_of u) ≡ false)
        × (v.has_job (server.create (to_gvr job_api) n u s).1 (space n) (v.name_of u) ≡ true)
  pub job_created_secret :
      (n : Option String) (u r : U) (s : S) (name : String)
      → (server.create (to_gvr job_api) n u s).0 ≡ done r
      → v.secret (server.create (to_gvr job_api) n u s).1 (space n) name ≡ v.secret s (space n) name
  -- 409 AlreadyExists
  pub job_exists :
      (n : Option String) (u : U) (e : E) (s : S)
      → (server.create (to_gvr job_api) n u s).0 ≡ fail e
      → errors.is_already_exists e ≡ true
      → ((server.create (to_gvr job_api) n u s).1 ≡ s)
        × (v.has_job s (space n) (v.name_of u) ≡ true)
  pub secret_created :
      (ns : String) (secret r : Secret) (s : S)
      → (server.create_secret ns secret s).0 ≡ done r
      → (v.secret s ns secret.name ≡ none)
        × (v.secret (server.create_secret ns secret s).1 ns secret.name ≡ some secret.string_data)
  pub secret_exists :
      (ns : String) (secret : Secret) (e : E) (s : S)
      → (server.create_secret ns secret s).0 ≡ fail e
      → errors.is_already_exists e ≡ true
      → ((server.create_secret ns secret s).1 ≡ s) × (v.secret s ns secret.name ≢ none)
  -- A patch of a Secret's metadata changes neither its values nor the Jobs.
  pub secret_patched :
      (n : Option String) (name : String) (patches : List K8sPatch) (s : S)
      → (v.has_job (server.patch (to_gvr secret_api) n name patches s).1 (space n) name
          ≡ v.has_job s (space n) name)
        × (v.secret (server.patch (to_gvr secret_api) n name patches s).1 (space n) name
            ≡ v.secret s (space n) name)
  -- After the deletion of a Secret, or a 404, there is none.
  pub secret_deleted :
      (ns name : String) (s : S)
      → (server.delete_secret ns name s).0 ≡ none
      → v.secret (server.delete_secret ns name s).1 ns name ≡ none
  pub secret_missing :
      (ns name : String) (e : E) (s : S)
      → (server.delete_secret ns name s).0 ≡ some e
      → errors.is_not_found e ≡ true
      → v.secret (server.delete_secret ns name s).1 ns name ≡ none

-- What the server's 409 Conflict would have to mean of a creation: that the name is taken. It is not
-- documented to; `fail e` is a Conflict if it is that and no NotFound.
pub record ConflictsMeanTaken {S U E : Type 0} (errors : ApiErrors E) (server : ApiServer S U E)
    (v : ClusterView S U) : Type 0 where
  pub job_conflict :
      (ns : String) (u : U) (e : E) (s : S)
      → (server.create (to_gvr job_api) (in_namespace ns) u s).0 ≡ fail e
      → errors.is_not_found e ≡ false
      → errors.is_conflict e ≡ true
      → ((server.create (to_gvr job_api) (in_namespace ns) u s).1 ≡ s)
        × (v.has_job s ns (v.name_of u) ≡ true)
  pub secret_conflict :
      (ns : String) (secret : Secret) (e : E) (s : S)
      → (server.create_secret ns secret s).0 ≡ fail e
      → errors.is_not_found e ≡ false
      → errors.is_conflict e ≡ true
      → ((server.create_secret ns secret s).1 ≡ s) × (v.secret s ns secret.name ≢ none)
