-- ===== src/Provider/Interface.antt =====
-- provider/interface.go: the requests, the capabilities that a provider implements, and
-- `NewServiceStatus`. A provider's method may panic.
pub mod Status
use Prim.Native.String as Text
use managed_services_lib.Common.{
  ℕ, zero, suc, String, Bool, true, false, Option, none, some, List, [], ltb, if◌then◌else◌,
}
use managed_services_lib.Common.Int.{ℤ}
use managed_services_lib.Common.StringMap.{StringMap}
use managed_services_lib.Failure.{Error, Result}
use managed_services_lib.Client.Api.{Action}
use managed_services_lib.Model.Contract.{
  ServiceId, BackupId, PlanSpec, ServiceStatus, Health, Conditions, health_message_max_len,
  RecoverFrom, ServiceBackups, BackupStatus, BackupStoreConfig, BackupStoreSecrets,
}

pub record CreateRequest (PlanParams Config Secrets : Type 0) : Type 0 where
  pub id : ServiceId
  pub team_id : ℤ
  pub custom_subdomain : Option String
  pub plan : PlanParams
  pub config : Config
  pub secrets : Secrets
  pub recover_from : Option RecoverFrom

pub record UpdateRequest (UpdateParams : Type 0) : Type 0 where
  pub id : ServiceId
  pub team_id : ℤ
  pub custom_subdomain : Option String
  pub pause : Option Bool
  pub params : UpdateParams
  pub backups : Option ServiceBackups

pub record BackupRequest : Type 0 where
  pub backup_id : BackupId
  pub service_id : ServiceId
  pub team_id : ℤ
  pub config : BackupStoreConfig
  pub secrets : BackupStoreSecrets
  pub retention_days : Option ℤ

pub data Attempt (A : Type 0) : Type 0 where
  returned : A → Attempt A
  panicked : String → Attempt A

abbrev pub Method : Type 0 → Type 0 → Type 0
Method S A = Action S (Attempt A)

pub record Provider (S PlanParams Config Secrets Details UpdateParams : Type 0) : Type 0 where
  pub create : CreateRequest PlanParams Config Secrets → Method S (Option Error)
  pub list : Method S (Result (List ServiceId))
  pub get_status :
      List ServiceId → Method S (Result (StringMap (ServiceStatus PlanParams Config Details)))
  pub update : UpdateRequest UpdateParams → Method S (Option Error)
  pub delete : ServiceId → Method S (Option Error)

pub record Backups (S : Type 0) : Type 0 where
  pub take_backup : BackupRequest → Method S (Option Error)
  pub get_backup_status : BackupRequest → Method S (Result BackupStatus)
  pub delete_backup : BackupRequest → Method S (Option Error)

pub record Maintenance (S : Type 0) : Type 0 where
  pub apply_maintenance : ServiceId → Method S (Option Error)

-- The first `n` runes of a string.
unfoldable pub take_runes : ℕ → String → String
take_runes zero s = String.[]
take_runes (suc n) String.[] = String.[]
take_runes (suc n) (String.◌∷◌ c s) = String.◌∷◌ c (take_runes n s)

-- `len([]rune(s))`
unfoldable pub rune_count : String → ℕ
rune_count String.[] = 0
rune_count (String.◌∷◌ c s) = suc (rune_count s)

-- `string(msg[:500])` if there are more runes.
unfoldable pub cut_message : String → String
cut_message m =
    if ltb health_message_max_len (rune_count m) then take_runes health_message_max_len m else m

-- `pause == nil || !*pause`
abbrev pub is_running : Option Bool → Bool
is_running none = true
is_running (some true) = false
is_running (some false) = true

abbrev conditions_of : Option Health → Option Bool → Option Conditions
conditions_of none pause = none
conditions_of (some h) pause =
    if is_running pause
    then some (record { health = some (record h { message = cut_message h.message }) })
    else none

module _ {PlanParams Config Details : Type 0} where
  unfoldable pub new_service_status :
      PlanParams
      → Config
      → Details
      → Option Bool
      → Option String
      → Option Health
      → ServiceStatus PlanParams Config Details
  new_service_status plan config details pause error health = record {
    plan = record { parameters = plan };
    config = config;
    details = details;
    pause = pause;
    error = error;
    backups = none;
    conditions = conditions_of health pause;
    utilization = none;
    maintenance = none;
  }
