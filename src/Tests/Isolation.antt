-- ===== src/Tests/Isolation.antt =====
-- The cluster in memory keeps its names apart, and the Jobs of one backup.
use managed_services_lib.Common.{String, false, ◌≡◌, ◌≢◌, refl, inl, inr, arith, eq_iff}
use managed_services_lib.Provider.ServiceJob.{service_job_name, service_job_spec}
use managed_services_lib.Provider.ServiceJob.Names.{backup, delete_backup, prefix}
use managed_services_lib.Provider.ServiceJob.Isolation.{service_jobs_isolated}
use managed_services_lib.JobRunner.Dispatch.{run, delete, replace}
use managed_services_lib.JobRunner.Isolation.{seen, IsLocal, Other}
use managed_services_lib.Tests.Memory.{is_at, empty, memory, objects, view, memory-IsCluster}
use managed_services_lib.Tests.Providers.{backup_operation}

is_at-Other : (ns name m n : String) → Other ns name m n → is_at ns name m n ≡ false
is_at-Other ns name m n other = ground (arith, other, eq_iff ns m, eq_iff name n)

memory-IsLocal : IsLocal view memory
memory-IsLocal = record {
  create_job = λ ns u s m n other. ground (arith, is_at-Other ns u.name m n other);
  create_secret = λ ns secret s m n other. ground (arith, is_at-Other ns secret.name m n other);
  patch_secret = λ ns name patches s m n other. refl;
  delete_job = λ ns name s m n other. ground (arith, is_at-Other ns name m n other);
  delete_secret = λ ns name s m n other. ground (arith, is_at-Other ns name m n other);
}

backup-delete_backup : backup ≢ delete_backup
backup-delete_backup e = cc

service_jobs_isolated_example :
    (seen view
        (run objects memory "rg-1" (service_job_spec backup_operation) empty).1
        "rg-1"
        (service_job_name (prefix delete_backup) "b1")
      ≡ seen view empty "rg-1" (service_job_name (prefix delete_backup) "b1"))
    × (seen view
          (replace objects memory "rg-1" (service_job_spec backup_operation) empty).1
          "rg-1"
          (service_job_name (prefix delete_backup) "b1")
        ≡ seen view empty "rg-1" (service_job_name (prefix delete_backup) "b1"))
    × (seen view
          (delete objects memory "rg-1"
            (service_job_name backup_operation.operation backup_operation.key)
            empty).1
          "rg-1"
          (service_job_name (prefix delete_backup) "b1")
        ≡ seen view empty "rg-1" (service_job_name (prefix delete_backup) "b1"))
service_jobs_isolated_example =
    service_jobs_isolated objects memory view memory-IsCluster memory-IsLocal backup_operation
      "rg-1" "rg-1" "b1" backup delete_backup empty refl (inr (inl backup-delete_backup))
