-- ===== src/Routes/Payloads.antt =====
-- provider/routes.go, model/common.go: the payloads and what their `binding` tags require, with the
-- documented meaning of each tag of go-playground/validator. A missing or null field of a payload
-- has its zero value. Decoding is gin's and encoding/json's: the record `Binder`.
pub mod Validation
use managed_services_lib.Common.{
  ℕ, ◌+◌, ◌<◌, String, code, Bool, true, false, not, ◌&&◌, ◌||◌, Option, ◌==◌, nat_eq, leb, is_some,
  if◌then◌else◌,
}
use managed_services_lib.Common.Int.{ℤ, pos, negsuc, is_nonpos}
use managed_services_lib.Model.Contract.{
  ServiceId, PlanSpec, RecoverFrom, ServiceBackups, BackupStoreConfig, BackupStoreSecrets,
}
use managed_services_lib.Provider.Interface.{rune_count}

pub record ServiceFields : Type 0 where
  pub id : ServiceId
  pub team_id : ℤ
  pub custom_subdomain : Option String

pub record UpdateFields : Type 0 where
  pub service_fields : ServiceFields
  pub open service_fields use *
  pub pause : Option Bool
  pub backups : Option ServiceBackups

pub record CreateBody (PlanParams Config Secrets : Type 0) : Type 0 where
  pub service_fields : ServiceFields
  pub open service_fields use *
  pub plan : PlanSpec PlanParams
  pub config : Config
  pub secrets : Secrets
  pub recover_from : Option RecoverFrom

pub record BackupBody : Type 0 where
  pub ms_id : ServiceId
  pub team_id : ℤ
  pub config : BackupStoreConfig
  pub secrets : BackupStoreSecrets
  pub retention_days : Option ℤ

-- The tags.
abbrev pub required : String → Bool
required s = not (s == "")

abbrev pub gt_zero : ℤ → Bool
gt_zero n = not (is_nonpos n)

unfoldable pub starts_with_slash : String → Bool
starts_with_slash String.[] = false
starts_with_slash (String.◌∷◌ c s) = nat_eq (code c) b'/'

unfoldable pub ends_with_slash : String → Bool
ends_with_slash String.[] = false
ends_with_slash (String.◌∷◌ c String.[]) = nat_eq (code c) b'/'
ends_with_slash (String.◌∷◌ c s) = ends_with_slash s

unfoldable pub valid_service_fields : ServiceFields → Bool
valid_service_fields f = required f.id && gt_zero f.team_id

-- `url` is validator's test of a URL.
unfoldable pub valid_store_config : (String → Bool) → BackupStoreConfig → Bool
valid_store_config url c =
    required c.type
    && c.type == "s3"
    && (required c.endpoint_url && url c.endpoint_url)
    && (required c.bucket && leb (rune_count c.bucket) 255)
    && (not (starts_with_slash c.prefix) && not (ends_with_slash c.prefix))
    && required c.access_key_id

unfoldable pub valid_recover_from : (String → Bool) → RecoverFrom → Bool
valid_recover_from url r =
    -- ID: required_without=MsID, excluded_with=MsID
    (if required r.ms_id then not (required r.id) else required r.id)
    -- MsID: required_without=ID
    && (required r.id || required r.ms_id)
    -- Time: required_with=MsID, excluded_without=MsID
    && (if required r.ms_id then is_some r.time else not (is_some r.time))
    && valid_store_config url r.config
    && required r.secrets.secret_key

unfoldable pub valid_create_body :
    {PlanParams Config Secrets : Type 0}
    → (String → Bool)
    → CreateBody PlanParams Config Secrets
    → Bool
valid_create_body url b =
    valid_service_fields b.service_fields
    && elim b.recover_from [ Option.none ↦ true | Option.some r ↦ valid_recover_from url r ]

unfoldable pub valid_update_fields : UpdateFields → Bool
valid_update_fields f = valid_service_fields f.service_fields

unfoldable pub valid_backup_body : (String → Bool) → BackupBody → Bool
valid_backup_body url b =
    required b.ms_id
    && gt_zero b.team_id
    && valid_store_config url b.config
    && required b.secrets.secret_key

-- `ShouldBindJSON` and `ShouldBindBodyWithJSON`: a payload, or the text of the error.
pub data Bound (A : Type 0) : Type 0 where
  bound : A → Bound A
  rejected : String → Bound A

pub record Binder (PlanParams Config Secrets UpdateParams : Type 0) : Type 0 where
  pub create_body : String → Bound (CreateBody PlanParams Config Secrets)
  pub update_fields : String → Bound UpdateFields
  pub update_params : String → Bound UpdateParams
  pub backup_body : String → Bound BackupBody
