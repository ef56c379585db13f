-- ===== src/Tests/Memory.antt =====
-- A cluster in memory that behaves as `JobRunner.Cluster` asks, and so shows that it can be asked.
-- Its unstructured objects are the Jobs themselves.
use managed_services_lib.Common.{
  String, refl, Bool, true, false, ◌&&◌, Option, none, some, [], ◌==◌, eq_refl, arith,
  if◌then◌else◌,
}
use managed_services_lib.Common.StringMap.{StringMap}
use managed_services_lib.Failure.{
  Result, ok, err, sentinel, is, resource_conflict, resource_not_found,
}
use managed_services_lib.Client.Types.{Secret, Job}
use managed_services_lib.Client.Api.{Action, KubernetesClient, Objects}
use managed_services_lib.JobRunner.Cluster.{ClusterView, IsCluster}

pub record World : Type 0 where
  pub taken : String → String → Bool
  pub values : String → String → Option (StringMap String)

abbrev pub empty : World
empty = record { taken = λ _ _. false; values = λ _ _. none }

abbrev pub is_at : String → String → String → String → Bool
is_at ns name m n = ns == m && name == n

abbrev pub take_name : String → String → Bool → World → World
take_name ns name b w = record w { taken = λ m n. if is_at ns name m n then b else w.taken m n }

abbrev pub set_values : String → String → Option (StringMap String) → World → World
set_values ns name o w = record w { values = λ m n. if is_at ns name m n then o else w.values m n }

abbrev create_job : String → Job → Action World (Result Job)
create_job ns job w =
    if w.taken ns job.name
    then (err (sentinel resource_conflict), w)
    else (ok job, take_name ns job.name true w)

abbrev make_secret : String → Secret → Action World (Result Secret)
make_secret ns secret w = elim (w.values ns secret.name) [
  | none ↦ (ok secret, set_values ns secret.name (some secret.string_data) w)
  | some _ ↦ (err (sentinel resource_conflict), w)
]

abbrev missing : {A : Type 0} → Action World (Result A)
missing w = (err (sentinel resource_not_found), w)

abbrev pub memory : KubernetesClient World Job
memory = record {
  create = λ api ns job w. create_job ns job w;
  get = λ ref w. missing w;
  list = λ opts w. (ok [], w);
  get_job = λ ns name w. missing w;
  list_pods = λ ns selector w. (ok [], w);
  patch = λ ref patches w. (none, w);
  delete = λ ref w. (none, take_name ref.namespace ref.name false w);
  get_pod_logs = λ ns pod container tail w. missing w;
  create_secret = λ ns secret w. make_secret ns secret w;
  get_secret = λ ns name w. missing w;
  delete_secret = λ ns name w. (none, set_values ns name none w);
}

abbrev pub objects : Objects Job
objects = record {
  get_namespace = λ job. job.namespace;
  get_uid = λ job. "uid";
  get_labels = λ job. some job.labels;
  get_annotations = λ job. [];
  to_unstructured = λ job. ok job;
}

abbrev pub view : ClusterView World Job
view = record {
  has_job = λ w ns name. w.taken ns name;
  secret = λ w ns name. w.values ns name;
  name_of = λ job. job.name;
}

pub memory-IsCluster : IsCluster objects memory view
unfolding is
memory-IsCluster = record {
  converted_name = λ job u h. ground arith;
  job_created = λ ns u r s h. ground (arith, eq_refl ns, eq_refl u.name);
  job_created_secret = λ ns u r s name h. ground arith;
  job_conflict = λ ns u e s h k. ground arith;
  secret_created = λ ns secret r s h. ground (arith, eq_refl ns, eq_refl secret.name);
  secret_conflict = λ ns secret e s h k. ground arith;
  secret_patched = λ ns name patches s. (refl, refl);
  secret_deleted = λ ns name s h. ground (arith, eq_refl ns, eq_refl name);
  secret_missing = λ ns name e s h k. ground arith;
}
