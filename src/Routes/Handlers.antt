-- ===== src/Routes/Handlers.antt =====
-- provider/routes.go: the handlers that `RegisterRoutes`, `RegisterBackupRoutes` and
-- `RegisterMaintenanceRoutes` mount. `id` is the path parameter.
pub mod Soundness
use managed_services_lib.Common.{
  ℕ, String, Bool, not, Option, none, some, List, [], ◌∷◌, ◌==◌, is_empty, map, if◌then◌else◌,
}
use managed_services_lib.Model.Contract.{ServiceId, BackupId, ServiceStatus, BackupStatus}
use managed_services_lib.Failure.{Error, Result, ok, err}
use managed_services_lib.Provider.Interface.{
  CreateRequest, UpdateRequest, BackupRequest, Attempt, Method, Provider, Backups, Maintenance,
}
use managed_services_lib.Http.{
  Request, Payload, service_ids, statuses, backup_status, Context, Finish, returned, panicked,
  Handler, json, set_status, error_object,
}
use managed_services_lib.Routes.Payloads.{
  CreateBody, UpdateFields, BackupBody, Bound, bound, rejected, Binder,
}
use managed_services_lib.Routes.Errors.{handle_error}

module _ {S D : Type 0} where
  -- `if err := call; err != nil { HandleError(c, err); return }` and then `c.Status(code)`.
  abbrev pub after_error : ℕ → Context D → Attempt (Option Error) × S → Finish D × S
  after_error code c (Attempt.returned none, s) = (returned (set_status code c), s)
  after_error code c (Attempt.returned (some e), s) = (returned (handle_error e c), s)
  after_error code c (Attempt.panicked m, s) = (panicked m c, s)

  -- The same for a call with a value, answered by `c.JSON(http.StatusOK, …)`.
  abbrev pub after_result :
      {A : Type 0} → (A → Payload D) → Context D → Attempt (Result A) × S → Finish D × S
  after_result show c (Attempt.returned (ok a), s) = (returned (json 200 (show a) c), s)
  after_result show c (Attempt.returned (err e), s) = (returned (handle_error e c), s)
  after_result show c (Attempt.panicked m, s) = (panicked m c, s)

  abbrev pub bad_request : String → Context D → S → Finish D × S
  bad_request text c s = (returned (json 400 (error_object text) c), s)

abbrev pub create_request :
    {PlanParams Config Secrets : Type 0}
    → CreateBody PlanParams Config Secrets
    → CreateRequest PlanParams Config Secrets
create_request body = record {
  id = body.id;
  team_id = body.team_id;
  custom_subdomain = body.custom_subdomain;
  plan = body.plan.parameters;
  config = body.config;
  secrets = body.secrets;
  recover_from = body.recover_from;
}

abbrev pub update_request :
    {UpdateParams : Type 0} → ServiceId → UpdateFields → UpdateParams → UpdateRequest UpdateParams
update_request id fields args = record {
  id = id;
  team_id = fields.team_id;
  custom_subdomain = fields.custom_subdomain;
  pause = fields.pause;
  params = args;
  backups = fields.backups;
}

module _ {S PlanParams Config Secrets Details UpdateParams : Type 0}
    (binder : Binder PlanParams Config Secrets UpdateParams)
    (p : Provider S PlanParams Config Secrets Details UpdateParams) where
  -- GET /
  unfoldable pub list_or_status : Request → Handler S (ServiceStatus PlanParams Config Details)
  list_or_status req c s =
      if is_empty req.ids
      then after_result service_ids c (p.list s)
      else after_result statuses c (p.get_status (map (λ id. id) req.ids) s)

  -- POST /
  unfoldable pub create : Request → Handler S (ServiceStatus PlanParams Config Details)
  create req c s = elim (binder.create_body req.body) [
    | rejected text ↦ bad_request text c s
    | bound body ↦ after_error 201 c (p.create (create_request body) s)
  ]

  -- The end of PATCH: the id of the request is that of the path.
  unfoldable pub update_bound :
      ServiceId → UpdateFields → UpdateParams → Handler S (ServiceStatus PlanParams Config Details)
  update_bound id fields args c s =
      if not (fields.id == id)
      then bad_request "id in body must match path" c s
      else after_error 204 c (p.update (update_request id fields args) s)

  -- PATCH /:id
  unfoldable pub update : ServiceId → Request → Handler S (ServiceStatus PlanParams Config Details)
  update id req c s = elim (binder.update_fields req.body) [
    | rejected text ↦ bad_request text c s
    | bound fields ↦ (elim (binder.update_params req.body) [
      | rejected text ↦ bad_request text c s
      | bound args ↦ update_bound id fields args c s
    ])
  ]

  -- DELETE /:id
  unfoldable pub delete : ServiceId → Request → Handler S (ServiceStatus PlanParams Config Details)
  delete id req c s = after_error 204 c (p.delete id s)

abbrev pub backup_request : BackupId → BackupBody → BackupRequest
backup_request id body = record {
  backup_id = id;
  service_id = body.ms_id;
  team_id = body.team_id;
  config = body.config;
  secrets = body.secrets;
  retention_days = body.retention_days;
}

module _ {PlanParams Config Secrets UpdateParams : Type 0}
    (binder : Binder PlanParams Config Secrets UpdateParams) where
  -- `parseBackup`
  unfoldable pub parse_backup : BackupId → Request → Bound BackupRequest
  parse_backup id req = elim (binder.backup_body req.body) [
    | rejected text ↦ rejected text
    | bound body ↦ bound (backup_request id body)
  ]

  module _ {S D : Type 0} (b : Backups S) where
    -- PUT /backups/:id
    unfoldable pub take_backup : BackupId → Request → Handler S D
    take_backup id req c s = elim (parse_backup id req) [
      | rejected text ↦ bad_request text c s
      | bound r ↦ after_error 202 c (b.take_backup r s)
    ]

    -- POST /backups/:id/status
    unfoldable pub get_backup_status : BackupId → Request → Handler S D
    get_backup_status id req c s = elim (parse_backup id req) [
      | rejected text ↦ bad_request text c s
      | bound r ↦ after_result backup_status c (b.get_backup_status r s)
    ]

    -- DELETE /backups/:id
    unfoldable pub delete_backup : BackupId → Request → Handler S D
    delete_backup id req c s = elim (parse_backup id req) [
      | rejected text ↦ bad_request text c s
      | bound r ↦ after_error 202 c (b.delete_backup r s)
    ]

-- POST /:id/maintenance
unfoldable pub apply_maintenance :
    {S D : Type 0} → Maintenance S → ServiceId → Request → Handler S D
apply_maintenance m id req c s = after_error 202 c (m.apply_maintenance id s)
