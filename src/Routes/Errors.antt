-- ===== src/Routes/Errors.antt =====
-- provider/routes.go: `HandleError`.
pub mod Answers
pub mod Lookup
pub mod Jobs
use managed_services_lib.Common.{ℕ, String, Bool, true, false, [], ◌∷◌, if◌then◌else◌}
use managed_services_lib.Failure.{
  Error, is, message, resource_not_found, resource_conflict, resource_invalid,
  kubernetes_request_failed, service_not_found, backup_not_found, invalid_argument,
  service_not_healthy, namespace_not_found, not_implemented, conflict, service_unavailable,
}
use managed_services_lib.Http.{Context, json, log_entry, error_object, Level, warn, error}

-- The level and text of the log line, the status, and the text of the response.
pub record Answer : Type 0 where
  pub level : Level
  pub logged : String
  pub code : ℕ
  pub text : String

abbrev client_error : ℕ → String → Answer
client_error code text = record { level = warn; logged = "client error"; code = code; text = text }

-- The switch, in its order.
unfoldable pub answer : Error → Answer
answer e =
    if is e service_not_found
    then client_error 404 (message e)
    else if is e backup_not_found
    then client_error 404 (message e)
    else if is e invalid_argument
    then client_error 400 (message e)
    else if is e service_not_healthy
    then client_error 502 (message e)
    else if is e namespace_not_found
    then client_error 404 (message e)
    else if is e conflict
    then client_error 409 (message e)
    else if is e service_unavailable
    then client_error 503 (message e)
    else if is e not_implemented
    then client_error 501 (message e)
    else if is e resource_not_found
    then client_error 404 "resource not found"
    else if is e resource_conflict
    then client_error 409 "resource already exists"
    else if is e resource_invalid
    then client_error 422 "resource invalid"
    else if is e kubernetes_request_failed
    then record {
      level = error;
      logged = "upstream error";
      code = 502;
      text = "upstream service error";
    }
    else record {
      level = error;
      logged = "internal error";
      code = 500;
      text = "internal server error";
    }

unfoldable pub handle_error : {D : Type 0} → Error → Context D → Context D
handle_error e c =
    let a = answer e in
    json a.code (error_object a.text) (log_entry a.level a.logged (("error", message e) ∷ []) c)
