-- ===== src/JobRunner/Build.antt =====
-- client/jobrunner.go: `buildJob`, `buildJobSecret`, `buildEnv` and `imagePullSecrets`.
pub mod Secrecy
pub mod Env
use managed_services_lib.Common.{
  String, Option, none, some, List, [], ◌∷◌, ◌++◌, map, is_empty, if◌then◌else◌,
}
use managed_services_lib.Common.Int.{ℤ, pos, to_int32}
use managed_services_lib.Common.StringMap.{StringMap, lookup, sorted_keys}
use managed_services_lib.Failure.{Result, ok, err, wrapf}
use managed_services_lib.Client.Types.{Secret, EnvVar, plain, secret_key_ref, JobStatus, Job}
use managed_services_lib.Client.Api.{Objects}
use managed_services_lib.JobRunner.Types.{
  JobSpec, default_job_timeout, default_job_ttl, default_job_backoff_limit, job_container_name,
}
use managed_services_lib.JobRunner.Duration.{duration_seconds}

-- `m[k]`, the zero value of a missing key.
abbrev read : StringMap String → String → String
read m k = elim (lookup k m) [ none ↦ "" | some v ↦ v ]

abbrev plain_var : StringMap String → String → EnvVar
plain_var m k = record { name = k; source = plain (read m k) }

abbrev secret_var : String → String → EnvVar
secret_var name k = record { name = k; source = secret_key_ref name k }

unfoldable pub build_env : JobSpec → List EnvVar
build_env spec =
    map (plain_var spec.env) (sorted_keys spec.env)
    ++ map (secret_var spec.name) (sorted_keys spec.secrets)

-- A nil slice and an empty one are both `[]`.
unfoldable pub image_pull_secrets : List String → List String
image_pull_secrets names = if is_empty names then [] else map (λ n. n) names

unfoldable pub build_job_secret : JobSpec → String → Secret
build_job_secret spec namespace = record {
  name = spec.name;
  namespace = namespace;
  labels = spec.labels;
  type = "Opaque";
  string_data = spec.secrets;
  binary_data = [];
}

abbrev no_status : JobStatus
no_status = record { conditions = []; start_time = none; completion_time = none; active = pos 0 }

abbrev or_default : Option ℤ → ℤ → ℤ
or_default none d = d
or_default (some n) d = n

abbrev pub customized : Option (Job → Job) → Job → Job
customized none job = job
customized (some f) job = f job

-- The Job before `Customize`.
unfoldable pub plain_job : JobSpec → String → Job
unfolding build_env image_pull_secrets
plain_job spec ns = record {
  api_version = "batch/v1";
  kind = "Job";
  name = spec.name;
  namespace = ns;
  labels = spec.labels;
  ttl_seconds_after_finished = to_int32 (duration_seconds spec.ttl default_job_ttl);
  active_deadline_seconds = duration_seconds spec.timeout default_job_timeout;
  backoff_limit = or_default spec.backoff_limit default_job_backoff_limit;
  template_labels = spec.labels;
  restart_policy = "Never";
  image_pull_secrets = image_pull_secrets spec.image_pull_secrets;
  containers =
      record {
        name = job_container_name;
        image = spec.image;
        image_pull_policy = "IfNotPresent";
        command = spec.command;
        args = spec.args;
        env = build_env spec;
        resources = spec.resources;
      }
      ∷ [];
  status = no_status;
}

abbrev converted : {U : Type 0} → Result U → Result U
converted (ok u) = ok u
converted (err e) = err (wrapf "converting job to unstructured: " e "")

unfoldable pub build_job : {U : Type 0} → Objects U → JobSpec → String → Result U
unfolding plain_job
build_job objects spec ns =
    converted (objects.to_unstructured (customized spec.customize (plain_job spec ns)))
