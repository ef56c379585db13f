-- ===== src/Provider/ServiceJob/Isolation.antt =====
-- provider/servicejob.go through client/jobrunner.go: the operations of services do not interfere.
use managed_services_lib.Common.{String, ◌≡◌, ◌≢◌, refl, ◌⊎◌, inl, inr}
use managed_services_lib.Client.Api.{KubernetesClient, Objects}
use managed_services_lib.JobRunner.Build.{plain_job}
use managed_services_lib.JobRunner.Cluster.{ClusterView, IsCluster}
use managed_services_lib.JobRunner.Contract.{KeepsName}
use managed_services_lib.JobRunner.Dispatch.{run, delete, replace}
use managed_services_lib.JobRunner.Isolation.{
  Other, seen, IsLocal, run-Other, delete-Other, replace-Other,
}
use managed_services_lib.Provider.ServiceJob.{ServiceJob, service_job_name, service_job_spec}
use managed_services_lib.Provider.ServiceJob.Names.{Operation, prefix, service_job_name-injective}

-- Another operation, key or namespace.
abbrev pub Elsewhere : String → Operation → String → String → Operation → String → Type 0
Elsewhere ns a k m b j = (ns ≢ m) ⊎ (a ≢ b) ⊎ (k ≢ j)

Elsewhere-Other :
    (ns m k j : String) (a b : Operation)
    → Elsewhere ns a k m b j
    → Other ns (service_job_name (prefix a) k) m (service_job_name (prefix b) j)
Elsewhere-Other ns m k j a b (inl h) = inl h
Elsewhere-Other ns m k j a b (inr (inl h)) = inr (λ e. h (service_job_name-injective a b k j e).0)
Elsewhere-Other ns m k j a b (inr (inr h)) = inr (λ e. h (service_job_name-injective a b k j e).1)

pub spec-KeepsName : (x : ServiceJob) (ns : String) → KeepsName (service_job_spec x) ns
unfolding service_job_spec plain_job
spec-KeepsName x ns = refl

module _ {S U : Type 0} (objects : Objects U) (kube : KubernetesClient S U) (v : ClusterView S U)
    (c : IsCluster objects kube v) (l : IsLocal v kube) where
  -- The operations of the library do not interfere: over a cluster on which a call for one name
  -- touches no other, running, replacing or deleting the Job of one operation on one key, whether it
  -- succeeds or fails at any call, leaves the Job and the credentials under any other operation, key
  -- or namespace as they were.
  pub service_jobs_isolated :
      (x : ServiceJob) (ns m j : String) (a b : Operation) (s : S)
      → x.operation ≡ prefix a
      → Elsewhere ns a x.key m b j
      → (seen v (run objects kube ns (service_job_spec x) s).1 m (service_job_name (prefix b) j)
          ≡ seen v s m (service_job_name (prefix b) j))
        × (seen v
              (replace objects kube ns (service_job_spec x) s).1
              m
              (service_job_name (prefix b) j)
            ≡ seen v s m (service_job_name (prefix b) j))
        × (seen v
              (delete objects kube ns (service_job_name x.operation x.key) s).1
              m
              (service_job_name (prefix b) j)
            ≡ seen v s m (service_job_name (prefix b) j))
  unfolding service_job_spec
  service_jobs_isolated x ns m j a b s op apart =
      let n : String = service_job_name (prefix b) j in
      let other : Other ns (service_job_name x.operation x.key) m n =
        rw op (Elsewhere-Other ns m x.key j a b apart) in
      let keeps = spec-KeepsName x ns in
      (
        run-Other v objects kube c l ns m n (service_job_spec x) s keeps other,
        replace-Other v objects kube c l ns m n (service_job_spec x) s keeps other,
        delete-Other v objects kube c l ns m n (service_job_name x.operation x.key) s other,
      )
