-- ===== src/JobRunner/Race.antt =====
-- client/jobrunner.go: several calls at a time. The library takes no lock: two replicas of a provider
-- may dispatch the same operation, and their API calls interleave. `advance` is `Run` up to its next
-- call that changes the cluster.
pub mod Sequential
pub mod Invariant
pub mod Schedules
pub mod Calls
pub mod Interleavings
pub mod Debts
pub mod Origins
pub mod Convergence
use managed_services_lib.Common.{
  ℕ, String, not, Bool, true, false, Option, none, some, List, [], ◌∷◌, is_empty, nat_eq,
  if◌then◌else◌,
}
use managed_services_lib.Model.Kubernetes.{job_api}
use managed_services_lib.Failure.{Error, Result, ok, err, is, resource_conflict}
use managed_services_lib.Client.Api.{Action, KubernetesClient, Objects}
use managed_services_lib.JobRunner.Types.{JobSpec}
use managed_services_lib.JobRunner.Build.{build_job, build_job_secret}
use managed_services_lib.JobRunner.Dispatch.{about, secret_failure, adopt_secret}

-- Where a `Run` stands between two calls.
pub data Phase (U : Type 0) : Type 0 where
  ready : Phase U
  secret_done : Phase U
  job_made : U → Phase U
  returned : Option Error → Phase U

module _ {S U : Type 0} (objects : Objects U) (kube : KubernetesClient S U) (ns : String) where
  abbrev after_secret : JobSpec → {A : Type 0} → Result A → Phase U
  after_secret spec r = elim (secret_failure objects kube spec r) [
    | none ↦ secret_done
    | some e ↦ returned (some e)
  ]

  abbrev after_job : JobSpec → Result U → Phase U
  after_job spec (ok created) =
      if not (is_empty spec.secrets) then job_made created else returned none
  after_job spec (err e) =
      if is e resource_conflict
      then returned none
      else returned (some (about "creating job " spec.name e))

  unfoldable pub advance : JobSpec → Phase U → S → Phase U × S
  unfolding adopt_secret
  advance spec ready s =
      if not (is_empty spec.secrets)
      then (let (r, s') = kube.create_secret ns (build_job_secret spec ns) s in
          (after_secret spec r, s'))
      else (secret_done, s)
  advance spec secret_done s = elim (build_job objects spec ns) [
    | ok job ↦ let (r, s') = kube.create job_api ns job s in (after_job spec r, s')
    | err e ↦ (returned (some (about "building job " spec.name e)), s)
  ]
  advance spec (job_made u) s =
      (returned none, adopt_secret objects kube ns spec.name (objects.get_uid u) s)
  advance spec (returned e) s = (returned e, s)
