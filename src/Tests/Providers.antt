-- ===== src/Tests/Providers.antt =====
-- The provider package on concrete values.
use managed_services_lib.Common.{String, ◌≡◌, refl, false, none, some, [], ◌∷◌}
use managed_services_lib.Common.StringMap.{IsMap, has_key, lookup}
use managed_services_lib.Model.Kubernetes.{service_id_label}
use managed_services_lib.Model.Contract.{Health, degraded}
use managed_services_lib.Provider.ServiceJob.{ServiceJob, service_job_spec, job_op_backup}
use managed_services_lib.Provider.ServiceJob.Labels.{expected_label, lookup-service_job_spec}
use managed_services_lib.Provider.Interface.{new_service_status}
use managed_services_lib.Provider.Interface.Status.{Reported, new_service_status-health}

-- A caller that tries to set a label of its own and the service's.
abbrev pub backup_operation : ServiceJob
backup_operation = record {
  operation = job_op_backup;
  ms_id = "ms-7";
  key = "b1";
  image = "img";
  command = "/backup" ∷ [];
  env = [];
  secrets = [];
  labels = ("team", "42") ∷ (service_id_label, "forged") ∷ [];
  image_pull_secrets = [];
  resources = record { limits = []; requests = [] };
}

labels-IsMap : IsMap backup_operation.labels
unfolding has_key
labels-IsMap = (refl, (refl, tt))

lookup-service_job_spec_example :
    lookup service_id_label (service_job_spec backup_operation).labels
    ≡ expected_label backup_operation service_id_label
lookup-service_job_spec_example =
    lookup-service_job_spec backup_operation service_id_label labels-IsMap

abbrev slow : Health
slow = record { status = degraded; message = "disk almost full" }

abbrev plan : String
plan = "plan"

new_service_status-health_example :
    Reported
      (some slow)
      (new_service_status plan plan plan (some false) none (some slow)).conditions
      (some false)
new_service_status-health_example =
    new_service_status-health plan plan plan (some false) none (some slow)
