-- ===== src/JobRunner/Retry.antt =====
-- client/jobrunner.go: `Replace` as the retry path. A deleted Job may stay for a while and keep its name
-- taken; then the dispatch is a no-op, and the caller calls `Replace` again on its next poll.
use managed_services_lib.Common.{
  ℕ, zero, suc, ◌-◌, ◌≤◌, ◌<◌, String, ◌≡◌, refl, ◌⊎◌, inl, inr, Bool, true, false, none, some,
  arith, ◌∙◌, is_empty, if◌then◌else◌, List,
}
use managed_services_lib.Model.Kubernetes.{K8sPatch, job_api}
use managed_services_lib.Failure.{ok}
use managed_services_lib.Client.Types.{Secret}
use managed_services_lib.Client.Api.{KubernetesClient, Objects}
use managed_services_lib.JobRunner.Types.{JobSpec}
use managed_services_lib.JobRunner.Build.{build_job, build_job_secret, plain_job, customized}
use managed_services_lib.JobRunner.Cluster.{ClusterView, IsCluster}
use managed_services_lib.JobRunner.Contract.{KeepsName, replace_ok, build_job-name}
use managed_services_lib.JobRunner.Available.{
  IsAvailable, ensure_secret-none, delete-none, replace-none,
}
use managed_services_lib.JobRunner.Dispatch.{
  job_ref, secret_ref, adopt_secret, ensure_secret, create_job, dispatch, run, delete, replace,
  owner_patch,
}

-- What is seen of a Job under deletion: whether the Job of a name is `live`, which one that is being
-- deleted is not, and for how many more polls it is still there.
pub record DeletionView (S : Type 0) : Type 0 where
  pub live : S → String → String → Bool
  pub left : S → String → String → ℕ

-- The cluster after so many calls of `Replace`, each followed by `settle`, which is what the cluster
-- does by itself until the next poll.
pub retry :
    {S U : Type 0} → Objects U → KubernetesClient S U → (S → S) → String → JobSpec → ℕ → S → S
retry objects kube settle ns spec zero s = s
retry objects kube settle ns spec (suc k) s =
    retry objects kube settle ns spec k (settle (replace objects kube ns spec s).1)

module _ {S U : Type 0} (objects : Objects U) (kube : KubernetesClient S U) (v : ClusterView S U)
    (d : DeletionView S) where
  -- Deletion as Kubernetes documents it: it marks the Job, and cannot be undone or put off; the Job goes
  -- when its finalizers are done. `settle` is what the cluster does between two polls.
  pub record IsDeleting (settle : S → S) : Type 0 where
    pub made :
        (ns : String) (u r : U) (s : S)
        → (kube.create job_api ns u s).0 ≡ ok r
        → d.live (kube.create job_api ns u s).1 ns (v.name_of u) ≡ true
    pub marked :
        (ns name : String) (s : S) → d.live (kube.delete (job_ref ns name) s).1 ns name ≡ false
    pub not_put_off :
        (ns name : String) (s : S)
        → d.live s ns name ≡ false
        → d.left (kube.delete (job_ref ns name) s).1 ns name ≤ d.left s ns name
    pub secret_made :
        (ns : String) (secret : Secret) (s : S) (name : String)
        → (d.live (kube.create_secret ns secret s).1 ns name ≡ d.live s ns name)
          × (d.left (kube.create_secret ns secret s).1 ns name ≡ d.left s ns name)
    pub secret_deleted :
        (ns name : String) (s : S)
        → (d.live (kube.delete_secret ns name s).1 ns name ≡ d.live s ns name)
          × (d.left (kube.delete_secret ns name s).1 ns name ≡ d.left s ns name)
    pub secret_patched :
        (ns name : String) (patches : List K8sPatch) (s : S)
        → d.live (kube.patch (secret_ref ns name) patches s).1 ns name ≡ d.live s ns name
    pub gone :
        (ns name : String) (s : S)
        → d.live s ns name ≡ false
        → d.left s ns name ≡ 0
        → v.has_job s ns name ≡ false
    pub settled :
        (ns name : String) (s : S)
        → d.live s ns name ≡ false
        → (d.live (settle s) ns name ≡ false) × (d.left (settle s) ns name ≤ d.left s ns name - 1)

  module _ (settle : S → S) (c : IsCluster objects kube v) (a : IsAvailable objects kube)
      (deleting : IsDeleting settle) (ns : String) (spec : JobSpec)
      (keeps : KeepsName spec ns) where
    abbrev pub after_polls : ℕ → S → S
    after_polls k s = retry objects kube settle ns spec k s

    abbrev pub live : S → Bool
    live s = d.live s ns spec.name

    abbrev pub left : S → ℕ
    left s = d.left s ns spec.name

    -- One of the first `n + 1` calls makes the Job, with the secrets of the spec.
    abbrev pub Dispatches : ℕ → S → Type 0
    Dispatches n s =
        (k : ℕ) × (k ≤ n)
        × (live (replace objects kube ns spec (after_polls k s)).1 ≡ true)
        × (v.secret (replace objects kube ns spec (after_polls k s)).1 ns spec.name
            ≡ (if is_empty spec.secrets then none else some spec.secrets))

    -- The Job is made, or the name is still taken by the one under deletion.
    create_job-live :
        (u : U) (s : S)
        → v.name_of u ≡ spec.name
        → live s ≡ false
        → (live (create_job objects kube ns spec u s).1 ≡ true)
          ⊎ (((create_job objects kube ns spec u s).1 ≡ s) × (0 < left s))
    unfolding create_job adopt_secret
    create_job-live u s named dead = elim (a.create_job ns u s) [
      | inl (r, e) ↦ inl (
          ground (
            arith,
            e,
            named,
            deleting.made ns u r s e,
            deleting.secret_patched ns spec.name (owner_patch spec.name (objects.get_uid r))
                (kube.create job_api ns u s).1,
          ))
      | inr (x, e, conflict) ↦ inr (
          ground (
            arith,
            e,
            conflict,
            named,
            c.job_conflict ns u x s e conflict,
            deleting.gone ns spec.name s dead,
          ))
    ]

    build_job_ok : (u : U) × (build_job objects spec ns ≡ ok u)
    unfolding build_job
    build_job_ok =
        let (u, e) = a.converts (customized spec.customize (plain_job spec ns)) in (u, rw e refl)

    dispatch-live :
        (s : S)
        → live s ≡ false
        → (live (dispatch objects kube ns spec s).1 ≡ true)
          ⊎ (((dispatch objects kube ns spec s).1 ≡ s) × (0 < left s))
    unfolding dispatch
    dispatch-live s dead =
        let (u, e) = build_job_ok in
        ground
          (arith, e, create_job-live u s (build_job-name objects kube v c ns spec u keeps e) dead)

    -- The Secret steps leave the Job as it is.
    ensure_secret-live :
        (s : S)
        → (live (ensure_secret objects kube ns spec s).1 ≡ live s)
          × (left (ensure_secret objects kube ns spec s).1 ≡ left s)
    unfolding ensure_secret
    ensure_secret-live s =
        ground (arith, deleting.secret_made ns (build_job_secret spec ns) s spec.name)

    -- The Job under deletion when `Replace` comes to its dispatch.
    abbrev pub left_over : S → ℕ
    left_over s = left (kube.delete (job_ref ns spec.name) s).1

    delete-live :
        (s : S)
        → (live (delete objects kube ns spec.name s).1 ≡ false)
          × (left (delete objects kube ns spec.name s).1 ≡ left_over s)
    unfolding delete
    delete-live s = ground (
      arith,
      deleting.marked ns spec.name s,
      deleting.secret_deleted ns spec.name (kube.delete (job_ref ns spec.name) s).1,
    )

    -- `Replace` is its three steps, none of which fails.
    replace-dispatch :
        (s : S)
        → (replace objects kube ns spec s).1
          ≡ (dispatch objects kube ns spec
              (ensure_secret objects kube ns spec (delete objects kube ns spec.name s).1).1).1
    unfolding replace run
    replace-dispatch s = ground (
      arith,
      delete-none objects kube a ns spec.name s,
      ensure_secret-none objects kube a ns spec (delete objects kube ns spec.name s).1,
    )

    replace-live :
        (s : S)
        → (live (replace objects kube ns spec s).1 ≡ true)
          ⊎ ((live (replace objects kube ns spec s).1 ≡ false)
              × (left (replace objects kube ns spec s).1 ≡ left_over s)
              × (0 < left_over s))
    replace-live s =
        let t : S = (delete objects kube ns spec.name s).1 in
        let u : S = (ensure_secret objects kube ns spec t).1 in
        let (dead, same) = delete-live s in
        let (dead', same') = ensure_secret-live t in
        rw (replace-dispatch s) (elim (dispatch-live u (dead' ∙ dead)) [
          | inl made ↦ inl made
          | inr (kept, some_left) ↦ inr (
            rw kept (dead' ∙ dead),
            rw kept (same' ∙ same),
            omega (arith, same, same', some_left),
          )
        ])

    -- A call of `Replace` that makes its Job is the first and last one.
    made_now : (n : ℕ) (s : S) → live (replace objects kube ns spec s).1 ≡ true → Dispatches n s
    unfolding retry
    made_now n s made = (
      0,
      omega arith,
      made,
      (replace_ok objects kube v c ns spec s keeps (replace-none objects kube a ns spec s)).1,
    )

    -- The retry path ends. On a cluster that answers its calls, where `Customize` keeps the name and
    -- nobody else dispatches: if the Job that `Replace` deletes needs at most `n` polls to go, then one of the first `n + 1` calls of `Replace`, one in each poll, makes a
    -- Job of the name that is not being deleted, whatever was there before; its Secret then holds exactly the
    -- secrets of the spec.
    pub retry-live : (n : ℕ) (s : S) → left_over s ≤ n → Dispatches n s
    unfolding retry
    retry-live zero s h = elim (replace-live s) [
      | inl made ↦ made_now zero s made
      | inr (dead, same, some_left) ↦ absurd (omega (arith, h, some_left))
    ]
    retry-live (suc n) s h = elim (replace-live s) [
      | inl made ↦ made_now (suc n) s made
      | inr (dead, same, some_left) ↦
          let t : S = (replace objects kube ns spec s).1 in
          let (dead', fewer) = deleting.settled ns spec.name t dead in
          let (k, few, made, secret) =
            retry-live n (settle t)
              (omega (arith, h, same, fewer, deleting.not_put_off ns spec.name (settle t) dead')) in
          (suc k, omega (arith, few), made, secret)
    ]
