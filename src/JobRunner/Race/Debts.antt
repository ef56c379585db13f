-- ===== src/JobRunner/Race/Debts.antt =====
-- client/jobrunner.go: what a `Replace` owes at each of its steps, and that it pays.
use managed_services_lib.Common.{
  String, ◌≡◌, ◌≢◌, refl, ap, ◌⊎◌, inl, inr, Bool, true, false, none, arith, is_empty, Option,
}
use managed_services_lib.Failure.{Error, ok}
use managed_services_lib.Client.Api.{KubernetesClient, Objects}
use managed_services_lib.Client.Types.{Secret}
use managed_services_lib.JobRunner.Types.{JobSpec}
use managed_services_lib.JobRunner.Build.{build_job, build_job_secret, plain_job, customized}
use managed_services_lib.JobRunner.Cluster.{ClusterView, IsCluster}
use managed_services_lib.JobRunner.Contract.{KeepsName, build_job-name}
use managed_services_lib.JobRunner.Available.{IsAvailable}
use managed_services_lib.JobRunner.Dispatch.{owner_patch, adopt_secret}
use managed_services_lib.JobRunner.Race.{ready, secret_done, job_made, returned, advance}
use managed_services_lib.JobRunner.Race.Calls.{
  replaces, Stage, deleting_job, deleting_secret, running, step,
}

-- The call has seen to its Secret, or is going to.
abbrev pub past_secret : {U : Type 0} → Stage U → Bool
past_secret (running secret_done) = true
past_secret (running (job_made u)) = true
past_secret (running (returned e)) = true
past_secret p = false

abbrev pub owes_secret : {U : Type 0} → Stage U → Bool
owes_secret deleting_secret = true
owes_secret (running ready) = true
owes_secret p = false

-- The same of its Job.
abbrev pub past_job : {U : Type 0} → Stage U → Bool
past_job (running (job_made u)) = true
past_job (running (returned e)) = true
past_job p = false

abbrev pub owes_job : {U : Type 0} → Stage U → Bool
owes_job deleting_secret = true
owes_job (running ready) = true
owes_job (running secret_done) = true
owes_job p = false

pub owes_secret_apart : {U : Type 0} (p : Stage U) → past_secret p ≡ true → owes_secret p ≡ false
owes_secret_apart deleting_job h = refl
owes_secret_apart deleting_secret h = ground (arith, h)
owes_secret_apart (running ready) h = ground (arith, h)
owes_secret_apart (running secret_done) h = refl
owes_secret_apart (running (job_made u)) h = refl
owes_secret_apart (running (returned e)) h = refl

pub owes_job_apart : {U : Type 0} (p : Stage U) → past_job p ≡ true → owes_job p ≡ false
owes_job_apart deleting_job h = refl
owes_job_apart deleting_secret h = ground (arith, h)
owes_job_apart (running ready) h = ground (arith, h)
owes_job_apart (running secret_done) h = ground (arith, h)
owes_job_apart (running (job_made u)) h = refl
owes_job_apart (running (returned e)) h = refl

abbrev pub IsQuiet : {U : Type 0} → Stage U → Type 0
IsQuiet p = (p ≡ deleting_job) ⊎ ((e : Option Error) × (p ≡ running (returned e)))

pub IsQuiet-debts :
    {U : Type 0} (p : Stage U) → IsQuiet p → (owes_secret p ≡ false) × (owes_job p ≡ false)
IsQuiet-debts p (inl e) = (ap owes_secret e, ap owes_job e)
IsQuiet-debts p (inr (x, e)) = (ap owes_secret e, ap owes_job e)

-- What one step does to something that every call sees to: the call owes it then, or it is there, or the
-- call has seen to it before and keeps it.
abbrev pub Tends :
    {S U : Type 0}
    → (Stage U → Bool)
    → (Stage U → Bool)
    → (S → Type 0)
    → Stage U
    → S
    → Stage U
    → S
    → Type 0
Tends past owes There p s q t = (owes q ≡ true) ⊎ There t ⊎ ((past p ≡ true) × (There s → There t))

module _ {S U : Type 0} (objects : Objects U) (kube : KubernetesClient S U) (v : ClusterView S U)
    (c : IsCluster objects kube v) (a : IsAvailable objects kube) (ns : String) where
  abbrev pub HasSecret : String → S → Type 0
  HasSecret name s = v.secret s ns name ≢ none

  abbrev pub HasJob : String → S → Type 0
  HasJob name s = v.has_job s ns name ≡ true

  abbrev pub TendsBoth : String → Stage U → S → Stage U × S → Type 0
  TendsBoth name p s (q, t) =
      Tends past_secret owes_secret (HasSecret name) p s q t
      × Tends past_job owes_job (HasJob name) p s q t

  builds : (spec : JobSpec) → (job : U) × (build_job objects spec ns ≡ ok job)
  unfolding build_job
  builds spec =
      let (job, e) = a.converts (customized spec.customize (plain_job spec ns)) in
      (job, ground (arith, e))

  pub step-TendsBoth :
      (spec : JobSpec) (p : Stage U) (s : S)
      → KeepsName spec ns
      → is_empty spec.secrets ≡ false
      → TendsBoth spec.name p s (step objects kube ns (replaces spec) p s)
  unfolding step advance adopt_secret
  step-TendsBoth spec deleting_job s keeps wanted = ground (arith, a.delete_job ns spec.name s)
  step-TendsBoth spec deleting_secret s keeps wanted =
      ground (arith, a.delete_secret ns spec.name s)
  step-TendsBoth spec (running ready) s keeps wanted =
      let secret : Secret = build_job_secret spec ns in
      elim (a.create_secret ns secret s) [
        | inl (r, e) ↦
            unfold build_job_secret in ground (arith, wanted, e, c.secret_created ns secret r s e)
        | inr (x, e, f) ↦
            unfold build_job_secret in
            ground (arith, wanted, e, f, c.secret_conflict ns secret x s e f)
      ]
  step-TendsBoth spec (running secret_done) s keeps wanted =
      let (job, e) = builds spec in
      elim (a.create_job ns job s) [
        | inl (r, f) ↦ ground (
          arith,
          wanted,
          e,
          f,
          build_job-name objects kube v c ns spec job keeps e,
          c.job_created ns job r s f,
          c.job_created_secret ns job r s spec.name f,
        )
        | inr (x, f, g) ↦ ground (
          arith,
          e,
          f,
          g,
          build_job-name objects kube v c ns spec job keeps e,
          c.job_conflict ns job x s f g,
        )
      ]
  step-TendsBoth spec (running (job_made u)) s keeps wanted =
      ground (arith, c.secret_patched ns spec.name (owner_patch spec.name (objects.get_uid u)) s)
  step-TendsBoth spec (running (returned e)) s keeps wanted =
      (inr (inr (refl, λ h. h)), inr (inr (refl, λ h. h)))
