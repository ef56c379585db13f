-- ===== src/JobRunner/Cluster/Conflict.antt =====
-- client/jobrunner.go over client/kubernetes.go: a creation that the API server refuses for a reason
-- other than that the name is taken.
use managed_services_lib.Common.{String, ◌≡◌, ◌↔◌, Bool, true, false, ◌||◌, none, arith, is_empty}
use managed_services_lib.Failure.{ok, is}
use managed_services_lib.Model.Kubernetes.{job_api}
use managed_services_lib.Client.Api.{Objects, ApiErrors, ApiServer, fail}
use managed_services_lib.Client.Kubernetes.{
  to_gvr, in_namespace, wrap_k8s_error, kubernetes_client_impl,
}
use managed_services_lib.JobRunner.Types.{JobSpec}
use managed_services_lib.JobRunner.Build.{build_job}
use managed_services_lib.JobRunner.Dispatch.{run, ensure_secret, dispatch, create_job}

-- The errors of a creation that `Run` swallows.
abbrev pub is_swallowed : {E : Type 0} → ApiErrors E → E → Bool
is_swallowed errors e = elim (errors.is_not_found e) [
  | true ↦ false
  | false ↦ errors.is_already_exists e || errors.is_conflict e
]

module _ {S U E : Type 0} (objects : Objects U) (errors : ApiErrors E)
    (server : ApiServer S U E) where
  -- When the API server refuses to create the Job of a spec with no secrets, `Run` reports success
  -- exactly if the refusal is no NotFound and is AlreadyExists or Conflict.
  pub run-is_swallowed :
      (ns : String) (spec : JobSpec) (u : U) (e : E) (s t : S)
      → is_empty spec.secrets ≡ true
      → build_job objects spec ns ≡ ok u
      → server.create (to_gvr job_api) (in_namespace ns) u s ≡ (fail e, t)
      → ((run objects (kubernetes_client_impl errors server) ns spec s).0 ≡ none)
        ↔ (is_swallowed errors e ≡ true)
  unfolding run ensure_secret dispatch create_job kubernetes_client_impl wrap_k8s_error is
  run-is_swallowed ns spec u e s t bare built refused = ground (arith, bare, built, refused)
