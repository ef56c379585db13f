-- ===== src/Tests/Jobs.antt =====
-- Jobs on the cluster in memory.
use mathlib.Core.Option
use managed_services_lib.Common.{
  String, ◌*◌, ◌/◌, ◌≡◌, refl, inr, true, false, none, some, List, [], ◌∷◌, arith, if◌then◌else◌,
}
use managed_services_lib.Common.Int.{pos}
use managed_services_lib.Common.StringMap.{StringMap, keys, has_key, lookup}
use managed_services_lib.Failure.{ok, is}
use managed_services_lib.Client.Types.{Pod, Job, plain, secret_key_ref}
use managed_services_lib.Client.Api.{KubernetesClient}
use managed_services_lib.JobRunner.Types.{JobSpec, second}
use managed_services_lib.JobRunner.Build.{build_job, build_job_secret, build_env, plain_job}
use managed_services_lib.JobRunner.Build.Secrecy.{build_job-secrets}
use managed_services_lib.JobRunner.Build.Env.{effective, effective-build_env}
use managed_services_lib.JobRunner.Duration.Bounds.{job_limits}
use managed_services_lib.JobRunner.Inspect.{failed_pod_logs, first_logs, sort_pods, insert_pod}
use managed_services_lib.JobRunner.Inspect.Logs.{IsNewest, failed_pod_logs-IsNewest}
use managed_services_lib.JobRunner.Dispatch.{
  run, delete, replace, ensure_secret, dispatch, create_job, adopt_secret,
}
use managed_services_lib.JobRunner.Contract.{credentials, run_ok, run_idempotent, replace_ok}
use managed_services_lib.Tests.Memory.{World, empty, memory, objects, view, memory-IsCluster}

abbrev pub backup_spec : JobSpec
backup_spec = record {
  name = "backup-b1";
  image = "img";
  command = "/backup" ∷ [];
  args = [];
  env = ("B", "2") ∷ ("A", "1") ∷ [];
  secrets = ("KEY", "s3cret") ∷ [];
  labels = [];
  image_pull_secrets = [];
  timeout = pos 0;
  ttl = pos 0;
  backoff_limit = none;
  resources = record { limits = []; requests = [] };
  customize = none;
}

pub backup_name : (plain_job backup_spec "rg-1").name ≡ "backup-b1"
unfolding plain_job
backup_name = refl

-- A Secret that an earlier attempt left behind.
abbrev leftover : World
leftover = record { taken = λ _ _. false; values = λ ns name. some (("KEY", "stale") ∷ []) }

-- A cluster on which the Job and its Secret exist.
abbrev dispatched : World
dispatched = record { taken = λ _ _. true; values = λ ns name. some (("KEY", "s3cret") ∷ []) }

run-leftover : (run objects memory "rg-1" backup_spec leftover).0 ≡ none
unfolding run ensure_secret dispatch build_job create_job adopt_secret plain_job is
run-leftover = refl

run_again : (run objects memory "rg-1" backup_spec dispatched).0 ≡ none
unfolding run ensure_secret dispatch build_job create_job adopt_secret plain_job is
run_again = refl

replace-leftover : (replace objects memory "rg-1" backup_spec leftover).0 ≡ none
unfolding replace delete run ensure_secret dispatch build_job build_job_secret create_job
    adopt_secret plain_job is
replace-leftover = refl

delete-leftover : (delete objects memory "rg-1" "backup-b1" leftover).0 ≡ none
unfolding delete
delete-leftover = refl

-- `Run` over a leftover Secret dispatches the Job with the stale value.
run_ok_example :
    (view.has_job (run objects memory "rg-1" backup_spec leftover).1 "rg-1" "backup-b1" ≡ true)
    × (view.secret (run objects memory "rg-1" backup_spec leftover).1 "rg-1" "backup-b1"
        ≡ credentials backup_spec (some (("KEY", "stale") ∷ [])))
run_ok_example =
    run_ok objects memory view memory-IsCluster "rg-1" backup_spec leftover backup_name run-leftover

run_idempotent_example : (run objects memory "rg-1" backup_spec dispatched).1 ≡ dispatched
run_idempotent_example =
    run_idempotent objects memory view memory-IsCluster "rg-1" backup_spec dispatched backup_name
      refl (inr (λ e. cc e)) run_again

replace_ok_example :
    (view.has_job (replace objects memory "rg-1" backup_spec leftover).1 "rg-1" "backup-b1" ≡ true)
    × (view.secret (replace objects memory "rg-1" backup_spec leftover).1 "rg-1" "backup-b1"
        ≡ some (("KEY", "s3cret") ∷ []))
replace_ok_example =
    replace_ok objects memory view memory-IsCluster "rg-1" backup_spec leftover backup_name
      replace-leftover

abbrev other_values : StringMap String
other_values = ("KEY", "another") ∷ []

same_keys : keys backup_spec.secrets ≡ keys other_values
unfolding keys
same_keys = refl

build_job-secrets_example :
    build_job objects (record backup_spec { secrets = other_values }) "rg-1"
    ≡ build_job objects backup_spec "rg-1"
build_job-secrets_example = build_job-secrets backup_spec other_values same_keys objects "rg-1"

effective-build_env_example : effective "KEY" (build_env backup_spec) ≡ (
    if has_key "KEY" backup_spec.secrets
    then some (secret_key_ref "backup-b1" "KEY")
    else Option.map plain (lookup "KEY" backup_spec.env))
effective-build_env_example = effective-build_env backup_spec "KEY"

distinct :
    (has_key {V = String} "B" (("A", "1") ∷ []) ≡ false)
    × ((has_key {V = String} "A" [] ≡ false) × Unit {0})
unfolding has_key
distinct = (refl, (refl, tt))

abbrev quick : JobSpec
quick = record backup_spec { timeout = pos (90 * second); ttl = pos (60 * second) }

job_limits_example :
    ((plain_job quick "rg-1").active_deadline_seconds ≡ 90 * second / second)
    × ((plain_job quick "rg-1").ttl_seconds_after_finished ≡ pos (60 * second / second))
job_limits_example =
    job_limits quick "rg-1" (90 * second) (60 * second) refl refl (omega arith) (omega arith)
      (omega arith) (omega arith)

-- Two pods, the older one listed first; the newest has logs.
abbrev two_pods : List Pod
two_pods =
    record { name = "p1"; creation_timestamp = 10 }
    ∷ record { name = "p2"; creation_timestamp = 20 }
    ∷ []

abbrev with_pods : KubernetesClient World Job
with_pods = record memory {
  list_pods = λ ns selector w. (ok two_pods, w);
  get_pod_logs = λ ns pod container tail w. (ok pod, w);
}

failed_pod_logs-IsNewest_example :
    IsNewest (λ pod. ok pod) two_pods (failed_pod_logs with_pods "rg-1" "backup-b1" empty).0
failed_pod_logs-IsNewest_example =
    failed_pod_logs-IsNewest with_pods (λ pod. ok pod) "rg-1" empty (λ name. (refl, refl))
      "backup-b1" two_pods refl refl

newest_is_second : (failed_pod_logs with_pods "rg-1" "backup-b1" empty).0 ≡ "p2"
unfolding failed_pod_logs first_logs sort_pods insert_pod
newest_is_second = refl

abbrev pub failed_job : Job
failed_job = record {
  api_version = "batch/v1";
  kind = "Job";
  name = "backup-b1";
  namespace = "rg-1";
  labels = [];
  ttl_seconds_after_finished = pos 3600;
  active_deadline_seconds = 60;
  backoff_limit = pos 3;
  template_labels = [];
  restart_policy = "Never";
  image_pull_secrets = [];
  containers = [];
  status = record {
    conditions =
        record {
          type = "Failed";
          status = "True";
          reason = "BackoffLimitExceeded";
          message = "";
          last_transition_time = 30;
        }
        ∷ [];
    start_time = some 5;
    completion_time = none;
    active = pos 0;
  };
}
