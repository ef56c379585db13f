-- ===== src/Routes/Errors/Jobs.antt =====
-- client/jobrunner.go over client/kubernetes.go, and provider/routes.go: what a client of the API
-- is told when a Job cannot be dispatched, polled or deleted.
use managed_services_lib.Common.{
  String, ◌≡◌, refl, ◌⊎◌, inl, inr, false, Option, none, some, List, arith, ◌∙◌,
}
use managed_services_lib.Failure.{Error, Result, ok, err, is, wrapf, Result-cases}
use managed_services_lib.Model.Kubernetes.{job_api}
use managed_services_lib.Client.Types.{Secret, Job}
use managed_services_lib.Client.Api.{KubernetesClient, Objects, ApiErrors, ApiServer}
use managed_services_lib.Client.Kubernetes.{kubernetes_client_impl, wrap_k8s_error}
use managed_services_lib.JobRunner.Types.{JobSpec}
use managed_services_lib.JobRunner.Build.{build_job, build_job_secret, plain_job, customized}
use managed_services_lib.JobRunner.Dispatch.{
  job_ref, ensure_secret, create_job, dispatch, run, delete, replace,
}
use managed_services_lib.JobRunner.Inspect.{state}
use managed_services_lib.Routes.Errors.{Answer, answer}
use managed_services_lib.Routes.Errors.Answers.{
  is_domain, wrap_all, wrap_all-SameClass, is_domain-SameClass,
}

-- The error, if there is one, is not one that a provider words for its users.
abbrev pub IsInternal : Option Error → Type 0
IsInternal none = Unit
IsInternal (some e) = is_domain e ≡ false

abbrev pub failure_of : {A : Type 0} → Result A → Option Error
failure_of (ok a) = none
failure_of (err e) = some e

pub record IsInternalClient {S U : Type 0} (kube : KubernetesClient S U) : Type 0 where
  pub create_job :
      (ns : String) (u : U) (s : S) → IsInternal (failure_of (kube.create job_api ns u s).0)
  pub create_secret :
      (ns : String) (secret : Secret) (s : S)
      → IsInternal (failure_of (kube.create_secret ns secret s).0)
  pub get_job : (ns name : String) (s : S) → IsInternal (failure_of (kube.get_job ns name s).0)
  pub delete_job : (ns name : String) (s : S) → IsInternal (kube.delete (job_ref ns name) s).0
  pub delete_secret : (ns name : String) (s : S) → IsInternal (kube.delete_secret ns name s).0

-- Wrapping keeps the class.
is_domain-wrapf :
    (before after : String) (e : Error) → is_domain (wrapf before e after) ≡ is_domain e
unfolding is
is_domain-wrapf before after e = refl

module _ {S U : Type 0} (objects : Objects U) (kube : KubernetesClient S U)
    (k : IsInternalClient kube)
    (converts : (job : Job) → IsInternal (failure_of (objects.to_unstructured job))) where
  ensure_secret-IsInternal :
      (ns : String) (spec : JobSpec) (s : S) → IsInternal (ensure_secret objects kube ns spec s).0
  unfolding ensure_secret is
  ensure_secret-IsInternal ns spec s =
      ground (arith, k.create_secret ns (build_job_secret spec ns) s)

  create_job-IsInternal :
      (ns : String) (spec : JobSpec) (u : U) (s : S)
      → IsInternal (create_job objects kube ns spec u s).0
  unfolding create_job is
  create_job-IsInternal ns spec u s = ground (arith, k.create_job ns u s)

  build_job-IsInternal :
      (ns : String) (spec : JobSpec) → IsInternal (failure_of (build_job objects spec ns))
  unfolding build_job is
  build_job-IsInternal ns spec =
      ground (arith, converts (customized spec.customize (plain_job spec ns)))

  dispatch-IsInternal :
      (ns : String) (spec : JobSpec) (s : S) → IsInternal (dispatch objects kube ns spec s).0
  unfolding dispatch is
  dispatch-IsInternal ns spec s = elim (Result-cases (build_job objects spec ns)) [
    | inl (u, built) ↦ ground (arith, built, create_job-IsInternal ns spec u s)
    | inr (e, built) ↦ ground (arith, built, build_job-IsInternal ns spec)
  ]

  pub run-IsInternal :
      (ns : String) (spec : JobSpec) (s : S) → IsInternal (run objects kube ns spec s).0
  unfolding run
  run-IsInternal ns spec s = ground (
    arith,
    ensure_secret-IsInternal ns spec s,
    dispatch-IsInternal ns spec (ensure_secret objects kube ns spec s).1,
  )

  delete-IsInternal : (ns name : String) (s : S) → IsInternal (delete objects kube ns name s).0
  unfolding delete is
  delete-IsInternal ns name s =
      ground
        (arith, k.delete_job ns name s, k.delete_secret ns name (kube.delete (job_ref ns name) s).1)

  replace-IsInternal :
      (ns : String) (spec : JobSpec) (s : S) → IsInternal (replace objects kube ns spec s).0
  unfolding replace
  replace-IsInternal ns spec s = ground (
    arith,
    delete-IsInternal ns spec.name s,
    run-IsInternal ns spec (delete objects kube ns spec.name s).1,
  )

  pub state-IsInternal :
      (ns name : String) (s : S) → IsInternal (failure_of (state kube ns name s).0)
  unfolding state is
  state-IsInternal ns name s = ground (arith, k.get_job ns name s)

-- The client of the program hands on nothing but wrapped API errors.
pub kubernetes_client_impl-IsInternalClient :
    {S U E : Type 0} (errors : ApiErrors E) (server : ApiServer S U E)
    → IsInternalClient (kubernetes_client_impl errors server)
unfolding kubernetes_client_impl wrap_k8s_error is
kubernetes_client_impl-IsInternalClient errors server = record {
  create_job = λ ns u s. ground arith;
  create_secret = λ ns secret s. ground arith;
  get_job = λ ns name s. ground arith;
  delete_job = λ ns name s. ground arith;
  delete_secret = λ ns name s. ground arith;
}

-- The answers that say nothing of their error.
abbrev pub IsFixed : Answer → Type 0
IsFixed a =
    ((a.code ≡ 404) × (a.text ≡ "resource not found"))
    ⊎ ((a.code ≡ 409) × (a.text ≡ "resource already exists"))
    ⊎ ((a.code ≡ 422) × (a.text ≡ "resource invalid"))
    ⊎ ((a.code ≡ 502) × (a.text ≡ "upstream service error"))
    ⊎ ((a.code ≡ 500) × (a.text ≡ "internal server error"))

-- The answer to the error, if there is one, once the callers in between have wrapped it, is fixed.
abbrev pub IsMasked : List (String × String) → Option Error → Type 0
IsMasked ws none = Unit
IsMasked ws (some e) = IsFixed (answer (wrap_all ws e))

pub answer-IsFixed : (e : Error) → is_domain e ≡ false → IsFixed (answer e)
unfolding answer
answer-IsFixed e h = ground (arith, h)

IsInternal-IsMasked :
    (ws : List (String × String)) (e : Option Error) → IsInternal e → IsMasked ws e
IsInternal-IsMasked ws none h = h
IsInternal-IsMasked ws (some e) h =
    answer-IsFixed (wrap_all ws e)
      (is_domain-SameClass (wrap_all ws e) e (wrap_all-SameClass ws e) ∙ h)

-- Whatever goes wrong while a Job is dispatched, polled, deleted or replaced, and however the
-- callers wrap it, `HandleError` answers with one of five fixed pairs of a status and a text, so
-- that neither a word of the cluster's error nor the name of a Job or a Secret reaches the client
-- of the API. The hypothesis is that the converter of apimachinery returns no error of this
-- library's domain.
pub jobs-IsMasked :
    {S U E : Type 0} (objects : Objects U) (errors : ApiErrors E) (server : ApiServer S U E)
    (wrappers : List (String × String)) (ns : String) (spec : JobSpec) (s : S)
    → ((job : Job) → IsInternal (failure_of (objects.to_unstructured job)))
    → IsMasked wrappers (run objects (kubernetes_client_impl errors server) ns spec s).0
      × IsMasked wrappers (delete objects (kubernetes_client_impl errors server) ns spec.name s).0
      × IsMasked wrappers (replace objects (kubernetes_client_impl errors server) ns spec s).0
      × IsMasked wrappers
          (failure_of (state (kubernetes_client_impl errors server) ns spec.name s).0)
jobs-IsMasked objects errors server wrappers ns spec s converts =
    let kube = kubernetes_client_impl errors server in
    let k = kubernetes_client_impl-IsInternalClient errors server in
    (
      IsInternal-IsMasked wrappers (run objects kube ns spec s).0
          (run-IsInternal objects kube k converts ns spec s),
      IsInternal-IsMasked wrappers (delete objects kube ns spec.name s).0
          (delete-IsInternal objects kube k converts ns spec.name s),
      IsInternal-IsMasked wrappers (replace objects kube ns spec s).0
          (replace-IsInternal objects kube k converts ns spec s),
      IsInternal-IsMasked wrappers (failure_of (state kube ns spec.name s).0)
          (state-IsInternal objects kube k converts ns spec.name s),
    )
