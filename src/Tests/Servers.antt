-- ===== src/Tests/Servers.antt =====
-- An API server in memory that behaves as documented, and one that refuses every creation.
use managed_services_lib.Common.{
  String, ◌≡◌, ◌↔◌, refl, true, false, none, some, [], eq_refl, arith, if◌then◌else◌,
}
use managed_services_lib.Failure.{ok}
use managed_services_lib.Client.Types.{Secret, Job}
use managed_services_lib.Client.Api.{Action, ApiErrors, ApiServer, Reply, done, fail}
use managed_services_lib.Client.Kubernetes.{kubernetes_client_impl}
use managed_services_lib.JobRunner.Types.{JobSpec}
use managed_services_lib.JobRunner.Build.{build_job, plain_job}
use managed_services_lib.JobRunner.Cluster.{IsCluster}
use managed_services_lib.JobRunner.Cluster.Api.{space, IsServer, ConflictsMeanTaken}
use managed_services_lib.JobRunner.Cluster.Server.{kubernetes_client_impl-IsCluster_iff}
use managed_services_lib.JobRunner.Cluster.Conflict.{is_swallowed, run-is_swallowed}
use managed_services_lib.JobRunner.Dispatch.{run}
use managed_services_lib.Tests.Memory.{World, empty, objects, view, take_name, set_values}
use managed_services_lib.Tests.Jobs.{backup_spec}

pub data Refusal : Type 0 where
  missing exists stale : Refusal

abbrev pub refusals : ApiErrors Refusal
refusals = record {
  is_not_found = λ e. elim e [ missing ↦ true | _ ↦ false ];
  is_already_exists = λ e. elim e [ exists ↦ true | _ ↦ false ];
  is_conflict = λ e. elim e [ stale ↦ true | _ ↦ false ];
  is_invalid = λ e. false;
  error = λ e. "refused";
}

abbrev make_job : String → Job → Action World (Reply Refusal Job)
make_job ns job w =
    if w.taken ns job.name then (fail exists, w) else (done job, take_name ns job.name true w)

abbrev make_secret : String → Secret → Action World (Reply Refusal Secret)
make_secret ns secret w = elim (w.values ns secret.name) [
  | none ↦ (done secret, set_values ns secret.name (some secret.string_data) w)
  | some _ ↦ (fail exists, w)
]

abbrev refuse : {A : Type 0} → Refusal → Action World (Reply Refusal A)
refuse e w = (fail e, w)

abbrev pub server : ApiServer World Job Refusal
server = record {
  create = λ gvr n job w. make_job (space n) job w;
  get = λ gvr n name w. refuse missing w;
  list = λ gvr n labels fields w. (done [], w);
  patch = λ gvr n name patches w. (none, w);
  delete = λ gvr n name w. (none, take_name (space n) name false w);
  get_job = λ ns name w. refuse missing w;
  list_pods = λ ns selector w. (done [], w);
  get_logs = λ ns pod container tail w. refuse missing w;
  create_secret = λ ns secret w. make_secret ns secret w;
  get_secret = λ ns name w. refuse missing w;
  delete_secret = λ ns name w. (none, set_values ns name none w);
}

pub server-IsServer : IsServer objects refusals server view
server-IsServer = record {
  converted_name = λ job u h. ground arith;
  job_created = λ n u r s h. ground (arith, eq_refl (space n), eq_refl u.name);
  job_created_secret = λ n u r s name h. ground arith;
  job_exists = λ n u e s h k. ground arith;
  secret_created = λ ns secret r s h. ground (arith, eq_refl ns, eq_refl secret.name);
  secret_exists = λ ns secret e s h k. ground arith;
  secret_patched = λ n name patches s. (refl, refl);
  secret_deleted = λ ns name s h. ground (arith, eq_refl ns, eq_refl name);
  secret_missing = λ ns name e s h k. ground arith;
}

kubernetes_client_impl-IsCluster_iff_example :
    IsCluster objects (kubernetes_client_impl refusals server) view
    ↔ ConflictsMeanTaken refusals server view
kubernetes_client_impl-IsCluster_iff_example =
    kubernetes_client_impl-IsCluster_iff objects refusals server view server-IsServer

-- This server never answers Conflict to a creation.
server-ConflictsMeanTaken : ConflictsMeanTaken refusals server view
server-ConflictsMeanTaken = record {
  job_conflict = λ ns u e s h k l. ground arith;
  secret_conflict = λ ns secret e s h k l. ground arith;
}

-- So its client is a cluster.
client-IsCluster : IsCluster objects (kubernetes_client_impl refusals server) view
client-IsCluster =
    (kubernetes_client_impl-IsCluster_iff objects refusals server view server-IsServer).1
      server-ConflictsMeanTaken

-- A quota that is being updated makes the server answer Conflict to a creation.
abbrev contended : ApiServer World Job Refusal
contended = record server { create = λ gvr n job w. refuse stale w }

contended-IsServer : IsServer objects refusals contended view
contended-IsServer = record {
  converted_name = server-IsServer.converted_name;
  job_created = λ n u r s h. ground arith;
  job_created_secret = λ n u r s name h. ground arith;
  job_exists = λ n u e s h k. ground arith;
  secret_created = server-IsServer.secret_created;
  secret_exists = server-IsServer.secret_exists;
  secret_patched = server-IsServer.secret_patched;
  secret_deleted = server-IsServer.secret_deleted;
  secret_missing = server-IsServer.secret_missing;
}

-- It is a server as documented, and its client is no cluster.
contended_client : ¬ IsCluster objects (kubernetes_client_impl refusals contended) view
contended_client c =
    let m : ConflictsMeanTaken refusals contended view =
      (kubernetes_client_impl-IsCluster_iff objects refusals contended view contended-IsServer).0
        c in
    ground (arith, m.job_conflict "rg-1" (plain_job backup_spec "rg-1") stale empty refl refl refl)

abbrev bare_spec : JobSpec
bare_spec = record backup_spec { secrets = [] }

abbrev bare_job : Job
bare_job = plain_job bare_spec "rg-1"

bare_job_built : build_job objects bare_spec "rg-1" ≡ ok bare_job
unfolding build_job
bare_job_built = refl

run-is_swallowed_example :
    ((run objects (kubernetes_client_impl refusals contended) "rg-1" bare_spec empty).0 ≡ none)
    ↔ (is_swallowed refusals stale ≡ true)
run-is_swallowed_example =
    run-is_swallowed objects refusals contended "rg-1" bare_spec bare_job stale empty empty refl
      bare_job_built refl
