-- ===== src/Model/Contract.antt =====
-- model/common.go: the contract's requests and responses. Struct fields that JSON may omit are
-- `Option`; `ServiceID` and `BackupId` are strings.
use Prim.Native.String.{◌++◌}
use managed_services_lib.Common.{ℕ, String, Bool, Option, List, ◌==◌, if◌then◌else◌}
use managed_services_lib.Common.StringMap.{StringMap}
use managed_services_lib.Common.Time.{Time}

abbrev pub ServiceId : Type 0
ServiceId = String

abbrev pub BackupId : Type 0
BackupId = String

pub record PlanSpec (Params : Type 0) : Type 0 where
  pub parameters : Params

pub data HealthStatus : Type 0 where
  healthy degraded unhealthy unknown : HealthStatus

abbrev pub health_message_max_len : ℕ
health_message_max_len = 500

pub record Health : Type 0 where
  pub status : HealthStatus
  pub message : String

pub record Conditions : Type 0 where
  pub health : Option Health

pub data MaintenanceStatus : Type 0 where
  pending : MaintenanceStatus

pub record MaintenanceItem : Type 0 where
  pub status : MaintenanceStatus
  pub description : String

pub record ServiceBackups : Type 0 where
  pub enabled : Option Bool

-- A utilization is a `float64`, carried as its JSON text.
pub record ServiceStatus (PlanParams Config Details : Type 0) : Type 0 where
  pub plan : PlanSpec PlanParams
  pub config : Config
  pub details : Details
  pub pause : Option Bool
  pub error : Option String
  pub backups : Option ServiceBackups
  pub conditions : Option Conditions
  pub utilization : Option (StringMap String)
  pub maintenance : Option (List MaintenanceItem)

pub record BackupStoreConfig : Type 0 where
  pub type : String
  pub endpoint_url : String
  pub bucket : String
  pub prefix : String
  pub access_key_id : String

pub record BackupStoreSecrets : Type 0 where
  pub secret_key : String

pub record RecoverFrom : Type 0 where
  pub id : BackupId
  pub ms_id : ServiceId
  pub time : Option Time
  pub config : BackupStoreConfig
  pub secrets : BackupStoreSecrets

pub record BackupStatus : Type 0 where
  pub exists : Bool
  pub error : String

-- `BackupStoreConfig.Path`
unfoldable pub path : BackupStoreConfig → String
path s = if s.prefix == "" then s.bucket else s.bucket ++ "/" ++ s.prefix
