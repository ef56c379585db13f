-- ===== src/Tests/Routes.antt =====
-- The routes on a binder that decodes every body to the same valid payloads, and a provider that
-- counts its calls.
use managed_services_lib.Common.{
  ℕ, ◌+◌, String, ◌≡◌, ◌≢◌, ◌↔◌, refl, sym, ◌⊎◌, Bool, true, Option, none, some, [],
}
use managed_services_lib.Common.Int.{pos}
use managed_services_lib.Failure.{Error, ok}
use managed_services_lib.Model.Contract.{RecoverFrom, BackupStoreConfig, BackupStoreSecrets}
use managed_services_lib.Provider.Interface.{
  CreateRequest, UpdateRequest, Attempt, Provider, Backups, rune_count,
}
use managed_services_lib.Http.{returned, json, error_object, Request, Context, fresh}
use managed_services_lib.Routes.Payloads.{
  rejected, ServiceFields, UpdateFields, CreateBody, BackupBody, bound, Binder, gt_zero,
  valid_recover_from, valid_store_config, starts_with_slash, ends_with_slash, valid_service_fields,
  valid_create_body, valid_update_fields, valid_backup_body,
}
use managed_services_lib.Routes.Payloads.Validation.{OneSource, GoodStore, valid_recover_from_iff}
use managed_services_lib.Routes.Handlers.{
  create, update, take_backup, get_backup_status, delete_backup, after_error,
}
use managed_services_lib.Routes.Handlers.Soundness.{
  Validates, PatchRefusal, create_sound, update_sound,
}
use managed_services_lib.Tests.Requests.{request}

abbrev store : BackupStoreConfig
store = record {
  type = "s3";
  endpoint_url = "https://s3";
  bucket = "b";
  prefix = "p";
  access_key_id = "id";
}

abbrev store_secrets : BackupStoreSecrets
store_secrets = record { secret_key = "k" }

abbrev restore : RecoverFrom
restore = record { id = "b1"; ms_id = ""; time = none; config = store; secrets = store_secrets }

abbrev fields : ServiceFields
fields = record { id = "ms-7"; team_id = pos 42; custom_subdomain = none }

abbrev create_body : CreateBody String String String
create_body = record {
  service_fields = fields;
  plan = record { parameters = "plan" };
  config = "config";
  secrets = "secrets";
  recover_from = some restore;
}

abbrev pub update_fields : UpdateFields
update_fields = record { service_fields = fields; pause = some true; backups = none }

abbrev pub backup_body : BackupBody
backup_body = record {
  ms_id = "ms-7";
  team_id = pos 42;
  config = store;
  secrets = store_secrets;
  retention_days = none;
}

abbrev pub binder : Binder String String String String
binder = record {
  create_body = λ raw. bound create_body;
  update_fields = λ raw. bound update_fields;
  update_params = λ raw. bound "params";
  backup_body = λ raw. bound backup_body;
}

abbrev url : String → Bool
url text = true

create_body-valid : valid_create_body url create_body ≡ true
unfolding valid_create_body valid_service_fields valid_recover_from valid_store_config
    starts_with_slash ends_with_slash rune_count
create_body-valid = refl

update_fields-valid : valid_update_fields update_fields ≡ true
unfolding valid_update_fields valid_service_fields
update_fields-valid = refl

backup_body-valid : valid_backup_body url backup_body ≡ true
unfolding valid_backup_body valid_store_config starts_with_slash ends_with_slash rune_count
backup_body-valid = refl

bound-injective : {A : Type 0} (a b : A) → bound a ≡ bound b → a ≡ b
bound-injective a b e = cc e

binder-Validates : Validates url binder
binder-Validates = record {
  create_body = λ raw b e. rw (sym (bound-injective create_body b e)) create_body-valid;
  update_fields = λ raw f e. rw (sym (bound-injective update_fields f e)) update_fields-valid;
  backup_body = λ raw b e. rw (sym (bound-injective backup_body b e)) backup_body-valid;
}

-- A provider whose world counts the calls.
abbrev pub counted : ℕ → Attempt (Option Error) × ℕ
counted n = (Attempt.returned none, n + 1)

abbrev pub counter : Provider ℕ String String String String String
counter = record {
  create = λ r n. counted n;
  list = λ n. (Attempt.returned (ok []), n + 1);
  get_status = λ ids n. (Attempt.returned (ok []), n + 1);
  update = λ r n. counted n;
  delete = λ id n. counted n;
}

abbrev pub backups : Backups ℕ
backups = record {
  take_backup = λ r n. counted n;
  get_backup_status = λ r n. (Attempt.returned (ok (record { exists = true; error = "" })), n + 1);
  delete_backup = λ r n. counted n;
}

abbrev pub posted : Request
posted = request "POST" "/api/v1/pg" "key"

create_sound_example :
    ((text : String) × (binder.create_body posted.body ≡ rejected text)
      × (create binder counter posted fresh 0 ≡ (returned (json 400 (error_object text) fresh), 0)))
    ⊎ ((b : CreateBody String String String) × (r : CreateRequest String String String)
        × (binder.create_body posted.body ≡ bound b)
        × (create binder counter posted fresh 0 ≡ after_error 201 fresh (counter.create r 0))
        × ((r.id ≡ b.id) × (r.team_id ≡ b.team_id) × (r.custom_subdomain ≡ b.custom_subdomain))
        × (r.plan ≡ b.plan.parameters)
        × (r.config ≡ b.config)
        × (r.secrets ≡ b.secrets)
        × (r.recover_from ≡ b.recover_from)
        × ((r.id ≢ "") × (gt_zero r.team_id ≡ true))
        × (elim r.recover_from [ none ↦ true | some x ↦ valid_recover_from url x ] ≡ true))
create_sound_example = create_sound url binder binder-Validates counter posted fresh 0

update_sound_example :
    ((text : String) × PatchRefusal url binder binder-Validates counter posted fresh 0 fields.id
        text
      × (update binder counter fields.id posted fresh 0
          ≡ (returned (json 400 (error_object text) fresh), 0)))
    ⊎ ((f : UpdateFields) × (args : String) × (r : UpdateRequest String) × (binder.update_fields
            posted.body
          ≡ bound f)
        × (binder.update_params posted.body ≡ bound args)
        × (f.id ≡ fields.id)
        × (update binder counter fields.id posted fresh 0
            ≡ after_error 204 fresh (counter.update r 0))
        × ((r.id ≡ fields.id) × (r.team_id ≡ f.team_id) × (r.custom_subdomain ≡ f.custom_subdomain))
        × ((r.pause ≡ f.pause) × (r.backups ≡ f.backups) × (r.params ≡ args))
        × (fields.id ≢ "")
        × (gt_zero r.team_id ≡ true))
update_sound_example = update_sound url binder binder-Validates counter posted fresh 0 fields.id

abbrev answered : Context String
answered = fresh

valid_recover_from_iff_example :
    (valid_recover_from url restore ≡ true)
    ↔ (OneSource restore × GoodStore url restore.config × (restore.secrets.secret_key ≢ ""))
valid_recover_from_iff_example = valid_recover_from_iff url restore
