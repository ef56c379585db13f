-- ===== src/JobRunner/Build/Secrecy.antt =====
-- client/jobrunner.go: the values of a spec's secrets are not in the Job that `buildJob` builds.
use managed_services_lib.Common.{String, ◌≡◌}
use managed_services_lib.Common.StringMap.{StringMap, keys, sorted_keys}
use managed_services_lib.Client.Api.{Objects}
use managed_services_lib.JobRunner.Types.{JobSpec}
use managed_services_lib.JobRunner.Build.{build_env, plain_job, build_job}

module _ (spec : JobSpec) (other : StringMap String) (same : keys spec.secrets ≡ keys other) where
  build_env-secrets : build_env (record spec { secrets = other }) ≡ build_env spec
  unfolding build_env sorted_keys
  build_env-secrets = rw same

  plain_job-secrets :
      (ns : String) → plain_job (record spec { secrets = other }) ns ≡ plain_job spec ns
  unfolding plain_job
  plain_job-secrets ns = rw build_env-secrets

  -- The Job depends on the names of the secrets alone: two specs that differ only in the values of
  -- their secrets build the same Job, whatever `Customize` does to it.
  pub build_job-secrets :
      {U : Type 0} (objects : Objects U) (ns : String)
      → build_job objects (record spec { secrets = other }) ns ≡ build_job objects spec ns
  unfolding build_job
  build_job-secrets objects ns = rw (plain_job-secrets ns)
