-- ===== src/JobRunner/Dispatch.antt =====
-- client/jobrunner.go: `Run`, `Delete`, `Replace` and `adoptSecret`.
use Prim.Native.String as Text
use managed_services_lib.Common.{
  String, not, Option, none, some, List, [], ◌∷◌, is_empty, if◌then◌else◌,
}
use managed_services_lib.Model.Kubernetes.{ResourceRef, K8sPatch, owners, secret_api, job_api}
use managed_services_lib.Failure.{
  Error, Result, ok, err, is, wrapf, resource_conflict, resource_not_found,
}
use managed_services_lib.Client.Api.{Action, KubernetesClient, Objects}
use managed_services_lib.JobRunner.Types.{JobSpec}
use managed_services_lib.JobRunner.Build.{build_job, build_job_secret}

-- The methods take the client of the runner, `runner.kube`.
pub record JobRunner (S U : Type 0) : Type 0 where
  pub kube : KubernetesClient S U

abbrev pub new_job_runner : {S U : Type 0} → KubernetesClient S U → JobRunner S U
new_job_runner kube = record { kube = kube }

-- `fmt.Errorf("<text> <name>: %w", name, err)`
abbrev pub about : String → String → Error → Error
about text name e = wrapf (Text.◌++◌ text (Text.◌++◌ name ": ")) e ""

abbrev pub job_ref : String → String → ResourceRef
job_ref ns name = record { api_resource = job_api; name = name; namespace = ns }

abbrev pub secret_ref : String → String → ResourceRef
secret_ref ns name = record { api_resource = secret_api; name = name; namespace = ns }

unfoldable pub owner_patch : String → String → List K8sPatch
owner_patch name uid =
    record {
      op = "add";
      path = "/metadata/ownerReferences";
      value =
          owners (record { api_version = "batch/v1"; kind = "Job"; name = name; uid = uid } ∷ []);
    }
    ∷ []

module _ {S U : Type 0} (objects : Objects U) (kube : KubernetesClient S U) where
  -- The error of the patch is dropped.
  unfoldable pub adopt_secret : String → String → String → S → S
  unfolding owner_patch
  adopt_secret ns name uid s = (kube.patch (secret_ref ns name) (owner_patch name uid) s).1

  -- `err != nil && !errors.Is(err, ErrResourceConflict)` of the call that makes the Secret.
  abbrev pub secret_failure : JobSpec → {A : Type 0} → Result A → Option Error
  secret_failure spec (ok _) = none
  secret_failure spec (err e) =
      if not (is e resource_conflict)
      then some (about "creating credentials secret for job " spec.name e)
      else none

  -- The first step of `Run`.
  unfoldable pub ensure_secret : String → JobSpec → Action S (Option Error)
  ensure_secret ns spec s =
      if not (is_empty spec.secrets)
      then (let (r, s') = kube.create_secret ns (build_job_secret spec ns) s in
          (secret_failure spec r, s'))
      else (none, s)

  -- `Run` once the Secret is there.
  unfoldable pub create_job : String → JobSpec → U → Action S (Option Error)
  create_job ns spec job s =
      let (r, s') = kube.create job_api ns job s in
      elim r [
        | ok created ↦
            if not (is_empty spec.secrets)
            then (none, adopt_secret ns spec.name (objects.get_uid created) s')
            else (none, s')
        | err e ↦
            if is e resource_conflict
            then (none, s')
            else (some (about "creating job " spec.name e), s')
      ]

  unfoldable pub dispatch : String → JobSpec → Action S (Option Error)
  dispatch ns spec s = elim (build_job objects spec ns) [
    | ok job ↦ create_job ns spec job s
    | err e ↦ (some (about "building job " spec.name e), s)
  ]

  unfoldable pub run : String → JobSpec → Action S (Option Error)
  run ns spec s =
      let (failure, s') = ensure_secret ns spec s in
      elim failure [ some e ↦ (some e, s') | none ↦ dispatch ns spec s' ]

  -- `err != nil && !errors.Is(err, ErrResourceNotFound)`
  abbrev pub delete_failure : String → String → Option Error → Option Error
  delete_failure text name none = none
  delete_failure text name (some e) =
      if not (is e resource_not_found) then some (about text name e) else none

  unfoldable pub delete : String → String → Action S (Option Error)
  delete ns name s =
      let (e, s') = kube.delete (job_ref ns name) s in
      elim (delete_failure "deleting job " name e) [
        | some failure ↦ (some failure, s')
        | none ↦
            (let (e', s'') = kube.delete_secret ns name s' in
              (delete_failure "deleting credentials secret for job " name e', s''))
      ]

  unfoldable pub replace : String → JobSpec → Action S (Option Error)
  replace ns spec s =
      let (failure, s') = delete ns spec.name s in
      elim failure [ some e ↦ (some e, s') | none ↦ run ns spec s' ]
