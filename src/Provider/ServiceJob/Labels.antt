-- ===== src/Provider/ServiceJob/Labels.antt =====
-- provider/servicejob.go: the labels of a service's Job.
use managed_services_lib.Common.{
  String, ◌≡◌, refl, ◌⊎◌, ◌||◌, Bool, true, false, Option, none, some, [], ◌==◌, eq_iff, arith,
  if◌then◌else◌, inl, inr,
}
use managed_services_lib.Common.StringMap.{
  StringMap, IsMap, lookup, put, copy_into, lookup-put, lookup-copy_into,
}
use managed_services_lib.Model.Kubernetes.{service_id_label, backup_id_label}
use managed_services_lib.Provider.ServiceJob.{
  ServiceJob, service_job_spec, identity_labels, key_label, job_op_backup, job_op_delete_backup,
}

abbrev pub is_backup_operation : String → Bool
is_backup_operation op = job_op_backup == op || job_op_delete_backup == op

-- Only the backup operations have a label for their key.
key_label-cases :
    (op : String)
    → ((key_label op ≡ backup_id_label) × (is_backup_operation op ≡ true))
      ⊎ ((key_label op ≡ "") × (is_backup_operation op ≡ false))
unfolding key_label lookup
key_label-cases op = ground arith

-- What a label of the Job is: the backup label is the key for the two backup operations, the
-- service label is the service, and any other label is the caller's, if the caller set it.
abbrev pub expected_label : ServiceJob → String → Option String
expected_label j l =
    if backup_id_label == l
    then (if is_backup_operation j.operation then some j.key else lookup l j.labels)
    else if service_id_label == l
    then some j.ms_id
    else lookup l j.labels

lookup_nil : (l : String) → lookup {V = String} l [] ≡ none
unfolding lookup
lookup_nil l = refl

-- Identity labels cannot be overridden: whatever labels the caller gives, the Job's service label
-- is the service, and the backup label of the two backup operations is the key. Every other label
-- is the caller's.
pub lookup-service_job_spec :
    (j : ServiceJob) (l : String)
    → IsMap j.labels
    → lookup l (service_job_spec j).labels ≡ expected_label j l
unfolding service_job_spec identity_labels
lookup-service_job_spec j l h =
    let copied : StringMap String = copy_into [] j.labels in
    elim (key_label-cases j.operation) [
      | inl (e, b) ↦
          rw (e, identity_labels)
            (ground (
              arith,
              b,
              lookup-put service_id_label l j.ms_id copied,
              lookup-put backup_id_label l j.key (put service_id_label j.ms_id copied),
              lookup-copy_into l [] j.labels h,
              lookup_nil l,
              eq_iff backup_id_label l,
              eq_iff service_id_label l,
              eq_iff backup_id_label service_id_label,
            ))
      | inr (e, b) ↦
          rw (e, identity_labels)
            (ground (
              arith,
              b,
              lookup-put service_id_label l j.ms_id copied,
              lookup-copy_into l [] j.labels h,
              lookup_nil l,
              eq_iff backup_id_label l,
              eq_iff service_id_label l,
              eq_iff backup_id_label service_id_label,
            ))
    ]
