-- ===== src/JobRunner/Race/Sequential.antt =====
-- client/jobrunner.go: a `Run` with nobody else at work is its steps one after another.
use managed_services_lib.Common.{String, ◌≡◌, arith}
use managed_services_lib.Client.Api.{KubernetesClient, Objects}
use managed_services_lib.JobRunner.Types.{JobSpec}
use managed_services_lib.JobRunner.Dispatch.{run, ensure_secret, dispatch, create_job}
use managed_services_lib.JobRunner.Race.{Phase, ready, returned, advance}

module _ {S U : Type 0} (objects : Objects U) (kube : KubernetesClient S U) (ns : String)
    (spec : JobSpec) where
  abbrev pub next : Phase U × S → Phase U × S
  next (p, s) = advance objects kube ns spec p s

  -- Three steps of a `Run` that is not disturbed are the whole of `Run`.
  pub advance-run :
      (s : S)
      → next (next (next (ready, s)))
        ≡ (returned (run objects kube ns spec s).0, (run objects kube ns spec s).1)
  unfolding advance run ensure_secret dispatch create_job
  advance-run s = ground arith
