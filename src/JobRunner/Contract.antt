-- ===== src/JobRunner/Contract.antt =====
-- client/jobrunner.go over a cluster: what `Run`, `Delete` and `Replace` promise when they return
-- no error.
use managed_services_lib.Common.{
  String, ◌≡◌, ◌≢◌, ◌⊎◌, inl, inr, true, false, Option, none, some, arith, is_empty, if◌then◌else◌,
  Bool-cases, Option-cases,
}
use managed_services_lib.Common.StringMap.{StringMap}
use managed_services_lib.Model.Kubernetes.{job_api}
use managed_services_lib.Failure.{ok, Result-cases}
use managed_services_lib.Client.Api.{KubernetesClient, Objects}
use managed_services_lib.JobRunner.Types.{JobSpec}
use managed_services_lib.JobRunner.Build.{build_job, build_job_secret, plain_job, customized}
use managed_services_lib.JobRunner.Cluster.{ClusterView, IsCluster}
use managed_services_lib.JobRunner.Dispatch.{
  job_ref, adopt_secret, ensure_secret, create_job, dispatch, run, delete, replace, owner_patch,
}

-- `Customize` leaves the Job's name alone.
abbrev pub KeepsName : JobSpec → String → Type 0
KeepsName spec ns = (customized spec.customize (plain_job spec ns)).name ≡ spec.name

-- The values of the Secret after `Run`, from those before: an existing Secret is left as it is.
abbrev pub credentials : JobSpec → Option (StringMap String) → Option (StringMap String)
credentials spec before =
    if is_empty spec.secrets
    then before
    else elim before [ none ↦ some spec.secrets | some old ↦ some old ]

module _ {S U : Type 0} (objects : Objects U) (kube : KubernetesClient S U) (v : ClusterView S U)
    (c : IsCluster objects kube v) where
  pub build_job-name :
      (ns : String) (spec : JobSpec) (u : U)
      → KeepsName spec ns
      → build_job objects spec ns ≡ ok u
      → v.name_of u ≡ spec.name
  unfolding build_job
  build_job-name ns spec u keeps h =
      ground (arith, c.converted_name (customized spec.customize (plain_job spec ns)) u)

  -- The Secret step: no Secret is wanted, or one was made, or one was there.
  pub ensure_secret-ok :
      (ns : String) (spec : JobSpec) (s : S)
      → is_empty spec.secrets ≡ false
      → (ensure_secret objects kube ns spec s).0 ≡ none
      → ((v.secret s ns spec.name ≡ none)
          × (v.secret (ensure_secret objects kube ns spec s).1 ns spec.name ≡ some spec.secrets))
        ⊎ ((v.secret s ns spec.name ≢ none) × ((ensure_secret objects kube ns spec s).1 ≡ s))
  unfolding ensure_secret build_job_secret
  ensure_secret-ok ns spec s wanted h =
      elim (Result-cases (kube.create_secret ns (build_job_secret spec ns) s).0) [
        | inl (r, e) ↦ ground (arith, c.secret_created ns (build_job_secret spec ns) r s e)
        | inr (x, e) ↦ ground (arith, c.secret_conflict ns (build_job_secret spec ns) x s e)
      ]

  -- The Job step: the Job was made, or its name was taken.
  create_job-ok :
      (ns : String) (spec : JobSpec) (job : U) (s : S)
      → v.name_of job ≡ spec.name
      → (create_job objects kube ns spec job s).0 ≡ none
      → ((v.has_job s ns spec.name ≡ false) ⊎ ((create_job objects kube ns spec job s).1 ≡ s))
        × (v.has_job (create_job objects kube ns spec job s).1 ns spec.name ≡ true)
        × (v.secret (create_job objects kube ns spec job s).1 ns spec.name
            ≡ v.secret s ns spec.name)
  unfolding create_job adopt_secret
  create_job-ok ns spec job s named h = elim (Result-cases (kube.create job_api ns job s).0) [
    | inl (r, e) ↦ ground (
      arith,
      c.job_created ns job r s e,
      c.job_created_secret ns job r s spec.name e,
      c.secret_patched ns spec.name (owner_patch spec.name (objects.get_uid r))
          (kube.create job_api ns job s).1,
    )
    | inr (x, e) ↦ ground (arith, c.job_conflict ns job x s e)
  ]

  dispatch-ok :
      (ns : String) (spec : JobSpec) (s : S)
      → KeepsName spec ns
      → (dispatch objects kube ns spec s).0 ≡ none
      → ((v.has_job s ns spec.name ≡ false) ⊎ ((dispatch objects kube ns spec s).1 ≡ s))
        × (v.has_job (dispatch objects kube ns spec s).1 ns spec.name ≡ true)
        × (v.secret (dispatch objects kube ns spec s).1 ns spec.name ≡ v.secret s ns spec.name)
  unfolding dispatch
  dispatch-ok ns spec s keeps h = elim (Result-cases (build_job objects spec ns)) [
    | inl (job, e) ↦
        ground (arith, e, create_job-ok ns spec job s (build_job-name ns spec job keeps e))
    | inr (x, e) ↦ ground (arith, e)
  ]

  pub ensure_secret-credentials :
      (ns : String) (spec : JobSpec) (s : S)
      → (ensure_secret objects kube ns spec s).0 ≡ none
      → v.secret (ensure_secret objects kube ns spec s).1 ns spec.name
        ≡ credentials spec (v.secret s ns spec.name)
  ensure_secret-credentials ns spec s h = elim (Bool-cases (is_empty spec.secrets)) [
    | inl e ↦ unfold ensure_secret in ground (arith, e)
    | inr e ↦ ground (arith, e, ensure_secret-ok ns spec s e h)
  ]

  -- Where `Customize` keeps the name: if `Run` returns no error, a Job of the name exists. The
  -- Secret of the name then holds the spec's secrets, unless there was one before, which is left as
  -- it was; with no secrets in the spec `Run` changes no Secret of the name.
  pub run_ok :
      (ns : String) (spec : JobSpec) (s : S)
      → KeepsName spec ns
      → (run objects kube ns spec s).0 ≡ none
      → (v.has_job (run objects kube ns spec s).1 ns spec.name ≡ true)
        × (v.secret (run objects kube ns spec s).1 ns spec.name
            ≡ credentials spec (v.secret s ns spec.name))
  unfolding run
  run_ok ns spec s keeps h = elim (Option-cases (ensure_secret objects kube ns spec s).0) [
    | inl e ↦ ground (
      arith,
      e,
      ensure_secret-credentials ns spec s e,
      dispatch-ok ns spec (ensure_secret objects kube ns spec s).1 keeps,
    )
    | inr (x, e) ↦ ground (arith, e)
  ]

  ensure_secret_present :
      (ns : String) (spec : JobSpec) (s : S)
      → (is_empty spec.secrets ≡ true) ⊎ (v.secret s ns spec.name ≢ none)
      → (ensure_secret objects kube ns spec s).0 ≡ none
      → (ensure_secret objects kube ns spec s).1 ≡ s
  ensure_secret_present ns spec s there h = elim (Bool-cases (is_empty spec.secrets)) [
    | inl e ↦ unfold ensure_secret in ground (arith, e)
    | inr e ↦ ground (arith, e, ensure_secret-ok ns spec s e h)
  ]

  -- `Run` is idempotent, if `Customize` keeps the name: where the Job exists, and its Secret if it
  -- has secrets, a `Run` that returns no error leaves the cluster exactly as it was.
  pub run_idempotent :
      (ns : String) (spec : JobSpec) (s : S)
      → KeepsName spec ns
      → v.has_job s ns spec.name ≡ true
      → (is_empty spec.secrets ≡ true) ⊎ (v.secret s ns spec.name ≢ none)
      → (run objects kube ns spec s).0 ≡ none
      → (run objects kube ns spec s).1 ≡ s
  unfolding run
  run_idempotent ns spec s keeps taken there h =
      elim (Option-cases (ensure_secret objects kube ns spec s).0) [
        | inl e ↦
            ground (arith, e, ensure_secret_present ns spec s there e, dispatch-ok ns spec s keeps)
        | inr (x, e) ↦ ground (arith, e)
      ]

  -- If `Delete` returns no error, the credentials Secret of the name is gone.
  pub delete_ok :
      (ns name : String) (s : S)
      → (delete objects kube ns name s).0 ≡ none
      → v.secret (delete objects kube ns name s).1 ns name ≡ none
  unfolding delete
  delete_ok ns name s h =
      let s' : S = (kube.delete (job_ref ns name) s).1 in
      elim (Option-cases (kube.delete_secret ns name s').0) [
        | inl e ↦ ground (arith, c.secret_deleted ns name s' e)
        | inr (x, e) ↦ ground (arith, c.secret_missing ns name x s' e)
      ]

  -- Where `Customize` keeps the name: if `Replace` returns no error, a Job of the name exists, and
  -- its Secret holds the secrets of the new spec and nothing older; for a spec with no secrets
  -- there is no Secret of the name.
  pub replace_ok :
      (ns : String) (spec : JobSpec) (s : S)
      → KeepsName spec ns
      → (replace objects kube ns spec s).0 ≡ none
      → (v.has_job (replace objects kube ns spec s).1 ns spec.name ≡ true)
        × (v.secret (replace objects kube ns spec s).1 ns spec.name
            ≡ (if is_empty spec.secrets then none else some spec.secrets))
  unfolding replace
  replace_ok ns spec s keeps h = elim (Option-cases (delete objects kube ns spec.name s).0) [
    | inl e ↦ ground (
      arith,
      e,
      delete_ok ns spec.name s e,
      run_ok ns spec (delete objects kube ns spec.name s).1 keeps,
    )
    | inr (x, e) ↦ ground (arith, e)
  ]
