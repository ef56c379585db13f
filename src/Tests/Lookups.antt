-- ===== src/Tests/Lookups.antt =====
-- A lookup through the client, on an API server that has no object at all.
use managed_services_lib.Common.{ℕ, true, false, some, List, [], ◌∷◌, String}
use managed_services_lib.Client.Types.{Job}
use managed_services_lib.Client.Api.{Action, ApiErrors, ApiServer, Reply, done, fail}
use managed_services_lib.Client.Kubernetes.{kubernetes_client_impl}
use managed_services_lib.Tests.Memory.{objects}
use managed_services_lib.Tests.Jobs.{backup_spec}
use managed_services_lib.JobRunner.Dispatch.{run, delete, replace}
use managed_services_lib.JobRunner.Inspect.{state}
use managed_services_lib.Routes.Errors.Jobs.{IsMasked, failure_of, jobs-IsMasked}

-- The only error of this server: there is no such object.
abbrev absent : ApiErrors ℕ
absent = record {
  is_not_found = λ e. true;
  is_already_exists = λ e. false;
  is_conflict = λ e. false;
  is_invalid = λ e. false;
  error = λ e. "not found";
}

abbrev refuse : {A : Type 0} → Action ℕ (Reply ℕ A)
refuse s = (fail 0, s)

abbrev no_objects : ApiServer ℕ Job ℕ
no_objects = record {
  create = λ gvr ns job s. refuse s;
  get = λ gvr ns name s. refuse s;
  list = λ gvr ns labels fields s. (done [], s);
  patch = λ gvr ns name patches s. (some 0, s);
  delete = λ gvr ns name s. (some 0, s);
  get_job = λ ns name s. refuse s;
  list_pods = λ ns selector s. (done [], s);
  get_logs = λ ns pod container tail s. refuse s;
  create_secret = λ ns secret s. refuse s;
  get_secret = λ ns name s. refuse s;
  delete_secret = λ ns name s. (some 0, s);
}

-- The text that the callers of the runner put around its errors.
abbrev backup_context : List (String × String)
backup_context = ("creating backup: ", "") ∷ []

jobs-IsMasked_example :
    IsMasked backup_context
      (run objects (kubernetes_client_impl absent no_objects) "rg-1" backup_spec 0).0
    × IsMasked backup_context
        (delete objects (kubernetes_client_impl absent no_objects) "rg-1" backup_spec.name 0).0
    × IsMasked backup_context
        (replace objects (kubernetes_client_impl absent no_objects) "rg-1" backup_spec 0).0
    × IsMasked backup_context
        (failure_of (state (kubernetes_client_impl absent no_objects) "rg-1" backup_spec.name 0).0)
jobs-IsMasked_example =
    jobs-IsMasked objects absent no_objects backup_context "rg-1" backup_spec 0 (λ job. tt)
