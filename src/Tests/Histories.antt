-- ===== src/Tests/Histories.antt =====
-- A history of calls on the cluster in memory.
use managed_services_lib.Common.{
  ◌⊎◌, some, String, ◌≡◌, ◌≢◌, refl, ap, inl, inr, true, none, List, [], ◌∷◌, eq_iff, arith,
}
use managed_services_lib.Failure.{is}
use managed_services_lib.JobRunner.Types.{JobSpec}
use managed_services_lib.JobRunner.Build.{build_job, build_job_secret, plain_job}
use managed_services_lib.JobRunner.Dispatch.{
  run, replace, ensure_secret, dispatch, create_job, adopt_secret,
}
use managed_services_lib.JobRunner.History.{IsStore, History, start, runs, replaces, polls, moves}
use managed_services_lib.JobRunner.History.Provenance.{Origin, History-Origin}
use managed_services_lib.JobRunner.History.Order.{run_credentials_first}
use managed_services_lib.Tests.Memory.{World, empty, memory, objects, view, memory-IsCluster}
use managed_services_lib.Tests.Jobs.{backup_spec}

pub memory-IsStore : IsStore memory view
memory-IsStore = record {
  create_secret = λ ns secret s m name. ground (arith, eq_iff ns m, eq_iff secret.name name);
  create_secret_jobs = λ ns secret s m name. ground arith;
  create_job = λ ns u s m name. ground arith;
  create_job_jobs = λ ns u s m name. ground arith;
  patch = λ ns secret patches s m name. refl;
  delete_job = λ ns job s m name. inl refl;
  delete_secret = λ ns secret s m name. ground arith;
  get_job = λ ns name s. refl;
  list_pods = λ ns selector s. refl;
  get_pod_logs = λ ns pod container tail s. refl;
}

-- All Jobs and Secrets are Collected at once.
abbrev Collected : World → World → Type 0
Collected t u = u ≡ empty

abbrev dispatched_once : World
dispatched_once = (run objects memory "rg-1" backup_spec empty).1

-- Run, poll, collection, and a replacement.
abbrev calls : List (String × JobSpec)
calls = ("rg-1", backup_spec) ∷ ("rg-1", backup_spec) ∷ []

abbrev last_world : World
last_world = (replace objects memory "rg-1" backup_spec empty).1

life : History objects memory Collected empty calls last_world
life =
    replaces "rg-1" backup_spec
      (moves (polls "rg-1" "backup-b1" (runs "rg-1" backup_spec start)) refl)

History-Origin_example :
    Origin calls
      (view.secret empty "rg-1" "backup-b1")
      "rg-1"
      "backup-b1"
      (view.secret last_world "rg-1" "backup-b1")
History-Origin_example =
    History-Origin objects memory view memory-IsStore Collected
      (λ t u m name e. inr (ap (λ (w : World). w.values m name) e)) life "rg-1" "backup-b1"

job_appears : view.has_job dispatched_once "rg-1" "backup-b1" ≡ true
unfolding run ensure_secret dispatch build_job build_job_secret create_job adopt_secret plain_job is
job_appears = refl

run_credentials_first_example :
    ((view.secret empty "rg-1" "backup-b1" ≡ none)
      × (view.secret dispatched_once "rg-1" "backup-b1" ≡ some backup_spec.secrets))
    ⊎ ((view.secret empty "rg-1" "backup-b1" ≢ none)
        × (view.secret dispatched_once "rg-1" "backup-b1" ≡ view.secret empty "rg-1" "backup-b1"))
run_credentials_first_example =
    run_credentials_first objects memory view memory-IsCluster memory-IsStore "rg-1" backup_spec
      empty "rg-1" "backup-b1" refl refl job_appears
