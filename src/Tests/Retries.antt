-- ===== src/Tests/Retries.antt =====
-- A cluster with a single Job, which stays for a while when it is deleted.
use managed_services_lib.Common.{
  ℕ, zero, suc, ◌+◌, String, ◌≡◌, refl, ◌⊎◌, inl, inr, true, false, Option, none, some, [], ◌∷◌,
  arith,
}
use managed_services_lib.Common.StringMap.{StringMap}
use managed_services_lib.Failure.{
  Error, Result, ok, err, sentinel, is, resource_conflict, resource_not_found,
}
use managed_services_lib.Client.Types.{Secret, Job}
use managed_services_lib.Client.Api.{Action, KubernetesClient}
use managed_services_lib.JobRunner.Cluster.{ClusterView, IsCluster}
use managed_services_lib.JobRunner.Available.{IsAvailable}
use managed_services_lib.JobRunner.Retry.{DeletionView, IsDeleting, retry-live, Dispatches}
use managed_services_lib.Tests.Memory.{objects}
use managed_services_lib.Tests.Jobs.{backup_spec, backup_name}

data Stage : Type 0 where
  absent live : Stage
  dying : ℕ → Stage

record Place : Type 0 where
  pub stage : Stage
  pub values : Option (StringMap String)

-- A Job under deletion is gone after the polls that are left and one more.
abbrev settle : Place → Place
settle p = record p {
  stage = elim p.stage [
    | absent ↦ absent
    | live ↦ live
    | dying n ↦ elim n [ zero ↦ absent | suc k ↦ dying k ]
  ];
}

abbrev create : Job → Action Place (Result Job)
create job p = elim p.stage [
  | absent ↦ (ok job, record p { stage = live })
  | live ↦ (err (sentinel resource_conflict), p)
  | dying n ↦ (err (sentinel resource_conflict), p)
]

abbrev remove : Action Place (Option Error)
remove p = elim p.stage [
  | absent ↦ (some (sentinel resource_not_found), p)
  | live ↦ (none, record p { stage = dying 1 })
  | dying n ↦ (none, p)
]

abbrev make_secret : Secret → Action Place (Result Secret)
make_secret secret p = elim p.values [
  | none ↦ (ok secret, record p { values = some secret.string_data })
  | some old ↦ (err (sentinel resource_conflict), p)
]

abbrev refuse : {A : Type 0} → Action Place (Result A)
refuse p = (err (sentinel resource_not_found), p)

abbrev slow : KubernetesClient Place Job
slow = record {
  create = λ api ns job p. create job p;
  get = λ ref p. refuse p;
  list = λ opts p. (ok [], p);
  get_job = λ ns name p. refuse p;
  list_pods = λ ns selector p. (ok [], p);
  patch = λ ref patches p. (none, p);
  delete = λ ref p. remove p;
  get_pod_logs = λ ns pod container tail p. refuse p;
  create_secret = λ ns secret p. make_secret secret p;
  get_secret = λ ns name p. refuse p;
  delete_secret = λ ns name p. (none, record p { values = none });
}

abbrev slow_view : ClusterView Place Job
slow_view = record {
  has_job = λ p ns name. elim p.stage [ absent ↦ false | live ↦ true | dying n ↦ true ];
  secret = λ p ns name. p.values;
  name_of = λ job. job.name;
}

abbrev deletions : DeletionView Place
deletions = record {
  live = λ p ns name. elim p.stage [ absent ↦ false | live ↦ true | dying n ↦ false ];
  left = λ p ns name. elim p.stage [ absent ↦ 0 | live ↦ 0 | dying n ↦ n + 1 ];
}

slow-IsCluster : IsCluster objects slow slow_view
unfolding is
slow-IsCluster = record {
  converted_name = λ job u h. ground arith;
  job_created = λ ns u r s h. ground arith;
  job_created_secret = λ ns u r s name h. ground arith;
  job_conflict = λ ns u e s h k. ground arith;
  secret_created = λ ns secret r s h. ground arith;
  secret_conflict = λ ns secret e s h k. ground arith;
  secret_patched = λ ns name patches s. (refl, refl);
  secret_deleted = λ ns name s h. refl;
  secret_missing = λ ns name e s h k. refl;
}

-- Each call is answered by success, or by the reply that the stage calls for.
create_answers :
    (job : Job) (g : Stage) (o : Option (StringMap String))
    → ((r : Job) × ((create job (record { stage = g; values = o })).0 ≡ ok r))
      ⊎ ((e : Error) × ((create job (record { stage = g; values = o })).0 ≡ err e)
          × (is e resource_conflict ≡ true))
unfolding is
create_answers job absent o = inl (job, refl)
create_answers job live o = inr (sentinel resource_conflict, refl, refl)
create_answers job (dying n) o = inr (sentinel resource_conflict, refl, refl)

make_secret_answers :
    (secret : Secret) (g : Stage) (o : Option (StringMap String))
    → ((r : Secret) × ((make_secret secret (record { stage = g; values = o })).0 ≡ ok r))
      ⊎ ((e : Error) × ((make_secret secret (record { stage = g; values = o })).0 ≡ err e)
          × (is e resource_conflict ≡ true))
unfolding is
make_secret_answers secret g none = inl (secret, refl)
make_secret_answers secret g (some old) = inr (sentinel resource_conflict, refl, refl)

remove_answers :
    (g : Stage) (o : Option (StringMap String))
    → ((remove (record { stage = g; values = o })).0 ≡ none)
      ⊎ ((e : Error) × ((remove (record { stage = g; values = o })).0 ≡ some e)
          × (is e resource_not_found ≡ true))
unfolding is
remove_answers absent o = inr (sentinel resource_not_found, refl, refl)
remove_answers live o = inl refl
remove_answers (dying n) o = inl refl

slow-IsAvailable : IsAvailable objects slow
slow-IsAvailable = record {
  converts = λ job. (job, refl);
  create_job = λ ns job s. create_answers job s.stage s.values;
  create_secret = λ ns secret s. make_secret_answers secret s.stage s.values;
  delete_job = λ ns name s. remove_answers s.stage s.values;
  delete_secret = λ ns name s. inl refl;
}

slow-IsDeleting : IsDeleting objects slow slow_view deletions settle
slow-IsDeleting = record {
  made = λ ns u r s h. ground arith;
  marked = λ ns name s. ground arith;
  not_put_off = λ ns name s h. ground arith;
  secret_made = λ ns secret s name. ground arith;
  secret_deleted = λ ns name s. (refl, refl);
  secret_patched = λ ns name patches s. refl;
  gone = λ ns name s h k. ground arith;
  settled = λ ns name s h. ground arith;
}

-- A failed Job with old credentials.
abbrev failed : Place
failed = record { stage = live; values = some (("KEY", "old") ∷ []) }

retry-live_example :
    Dispatches objects slow slow_view deletions settle slow-IsCluster slow-IsAvailable
      slow-IsDeleting "rg-1" backup_spec backup_name 2 failed
retry-live_example =
    retry-live objects slow slow_view deletions settle slow-IsCluster slow-IsAvailable
      slow-IsDeleting "rg-1" backup_spec backup_name 2 failed (omega arith)
