-- ===== src/JobRunner/Race/Invariant.antt =====
-- client/jobrunner.go: what holds however several `Run`s of one name interleave.
use managed_services_lib.Common.{
  ℕ, String, ◌≡◌, ◌≢◌, ◌⊎◌, inl, inr, true, false, none, arith, is_empty,
}
use managed_services_lib.Model.Kubernetes.{job_api}
use managed_services_lib.Failure.{Result-cases}
use managed_services_lib.Client.Types.{Secret}
use managed_services_lib.Client.Api.{KubernetesClient, Objects}
use managed_services_lib.JobRunner.Types.{JobSpec}
use managed_services_lib.JobRunner.Build.{build_job, build_job_secret}
use managed_services_lib.JobRunner.Cluster.{ClusterView, IsCluster}
use managed_services_lib.JobRunner.Contract.{KeepsName, build_job-name}
use managed_services_lib.JobRunner.Dispatch.{owner_patch, adopt_secret}
use managed_services_lib.JobRunner.History.{IsStore}
use managed_services_lib.JobRunner.Race.{Phase, ready, secret_done, job_made, returned, advance}

-- The Secret step lies behind.
abbrev pub IsPast : {U : Type 0} → Phase U → Type 0
IsPast ready = ⊥
IsPast secret_done = Unit
IsPast (job_made u) = Unit
IsPast (returned e) = ⊥

-- The step has made a Job.
abbrev pub won : {U : Type 0} → Phase U → Phase U → ℕ
won secret_done (job_made u) = 1
won p q = 0

module _ {S U : Type 0} (objects : Objects U) (kube : KubernetesClient S U) (v : ClusterView S U)
    (c : IsCluster objects kube v) (k : IsStore kube v) (ns : String) where
  -- What a step does to the Job and the Secret of the name.
  pub record Effect (name : String) (p : Phase U) (s : S) (q : Phase U) (t : S) : Type 0 where
    pub secret_kept : v.secret s ns name ≢ none → v.secret t ns name ≢ none
    pub secret_there : IsPast q → v.secret t ns name ≢ none
    pub job_kept : v.has_job s ns name ≡ true → v.has_job t ns name ≡ true
    pub job_appears :
        v.has_job t ns name ≡ true → (v.has_job s ns name ≡ true) ⊎ (v.secret t ns name ≢ none)
    pub job_won :
        (won p q ≡ 0)
        ⊎ ((won p q ≡ 1) × (v.has_job s ns name ≡ false) × (v.has_job t ns name ≡ true))

  pub advance-Effect :
      (spec : JobSpec) (p : Phase U) (s : S)
      → KeepsName spec ns
      → is_empty spec.secrets ≡ false
      → (IsPast p → v.secret s ns spec.name ≢ none)
      → Effect spec.name p s
          (advance objects kube ns spec p s).0
          (advance objects kube ns spec p s).1
  unfolding advance adopt_secret
  advance-Effect spec ready s keeps wanted there =
      let secret : Secret = build_job_secret spec ns in
      elim (Result-cases (kube.create_secret ns secret s).0) [
        | inl (r, e) ↦
            unfold build_job_secret in
            ground (
              arith,
              wanted,
              e,
              c.secret_created ns secret r s e,
              k.create_secret_jobs ns secret s ns spec.name,
            )
        | inr (x, e) ↦
            unfold build_job_secret in
            ground (
              arith,
              wanted,
              e,
              c.secret_conflict ns secret x s e,
              k.create_secret ns secret s ns spec.name,
              k.create_secret_jobs ns secret s ns spec.name,
            )
      ]
  advance-Effect spec secret_done s keeps wanted there =
      elim (Result-cases (build_job objects spec ns)) [
        | inr (x, e) ↦ ground (arith, e, there tt)
        | inl (job, e) ↦ (elim (Result-cases (kube.create job_api ns job s).0) [
          | inl (r, f) ↦ ground (
            arith,
            wanted,
            e,
            f,
            there tt,
            build_job-name objects kube v c ns spec job keeps e,
            c.job_created ns job r s f,
            c.job_created_secret ns job r s spec.name f,
          )
          | inr (x, f) ↦ ground (
            arith,
            e,
            f,
            there tt,
            k.create_job ns job s ns spec.name,
            k.create_job_jobs ns job s ns spec.name,
          )
        ])
      ]
  advance-Effect spec (job_made u) s keeps wanted there =
      ground (
        arith,
        there tt,
        c.secret_patched ns spec.name (owner_patch spec.name (objects.get_uid u)) s,
      )
  advance-Effect spec (returned x) s keeps wanted there = ground arith
