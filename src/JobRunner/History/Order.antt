-- ===== src/JobRunner/History/Order.antt =====
-- client/jobrunner.go: no pod starts before its credentials are there.
use managed_services_lib.Common.{
  String, ◌≡◌, ◌≢◌, inl, inr, true, false, none, some, ◌⊎◌, arith, is_empty, Option-cases,
}
use managed_services_lib.Client.Api.{KubernetesClient, Objects}
use managed_services_lib.JobRunner.Types.{JobSpec}
use managed_services_lib.JobRunner.Build.{build_job_secret}
use managed_services_lib.JobRunner.Cluster.{ClusterView, IsCluster}
use managed_services_lib.JobRunner.Contract.{ensure_secret-ok}
use managed_services_lib.JobRunner.Dispatch.{ensure_secret, run}
use managed_services_lib.JobRunner.History.{IsStore}
use managed_services_lib.JobRunner.History.Effects.{dispatch-secret}

module _ {S U : Type 0} (objects : Objects U) (kube : KubernetesClient S U) (v : ClusterView S U)
    (c : IsCluster objects kube v) (k : IsStore kube v) where
  ensure_secret-has_job :
      (ns : String) (spec : JobSpec) (s : S) (m name : String)
      → v.has_job (ensure_secret objects kube ns spec s).1 m name ≡ v.has_job s m name
  unfolding ensure_secret
  ensure_secret-has_job ns spec s m name =
      ground (arith, k.create_secret_jobs ns (build_job_secret spec ns) s m name)

  -- The credentials come first: whenever `Run` has brought a Job with secrets into the cluster, even if
  -- it returned an error, the Secret of the spec's name is there. It holds exactly the spec's secrets
  -- if there was none before, and else exactly what it held before.
  pub run_credentials_first :
      (ns : String) (spec : JobSpec) (s : S) (m name : String)
      → is_empty spec.secrets ≡ false
      → v.has_job s m name ≡ false
      → v.has_job (run objects kube ns spec s).1 m name ≡ true
      → ((v.secret s ns spec.name ≡ none)
          × (v.secret (run objects kube ns spec s).1 ns spec.name ≡ some spec.secrets))
        ⊎ ((v.secret s ns spec.name ≢ none)
            × (v.secret (run objects kube ns spec s).1 ns spec.name ≡ v.secret s ns spec.name))
  unfolding run
  run_credentials_first ns spec s m name wanted free taken =
      elim (Option-cases (ensure_secret objects kube ns spec s).0) [
        | inr (x, e) ↦ ground (arith, e, ensure_secret-has_job ns spec s m name)
        | inl e ↦ ground (
          arith,
          e,
          wanted,
          ensure_secret-ok objects kube v c ns spec s wanted e,
          dispatch-secret objects kube v k ns spec (ensure_secret objects kube ns spec s).1 ns
              spec.name,
        )
      ]
