-- ===== src/JobRunner/Race/Origins.antt =====
-- client/jobrunner.go: the values of the Secret while `Replace`s of one name go on at the same time.
use managed_services_lib.Common.{
  ℕ, String, ◌≡◌, refl, ◌∙◌, ◌⊎◌, inl, inr, Bool, true, false, none, some, arith, nat_eq, is_empty,
  Bool-cases,
}
use managed_services_lib.Failure.{Result-cases}
use managed_services_lib.Client.Api.{KubernetesClient, Objects}
use managed_services_lib.JobRunner.Types.{JobSpec}
use managed_services_lib.JobRunner.Build.{build_job, build_job_secret}
use managed_services_lib.JobRunner.Cluster.{ClusterView, IsCluster}
use managed_services_lib.JobRunner.Available.{IsAvailable}
use managed_services_lib.JobRunner.Dispatch.{owner_patch, adopt_secret}
use managed_services_lib.JobRunner.History.{IsStore}
use managed_services_lib.JobRunner.Race.{ready, secret_done, job_made, returned, advance}
use managed_services_lib.JobRunner.Race.Calls.{
  replaces, Stage, deleting_job, deleting_secret, running, step,
}
use managed_services_lib.JobRunner.Race.Interleavings.{Work, Interleaving, idle, turns, moves}

-- The call has removed the old Secret.
abbrev pub has_deleted : {U : Type 0} → Stage U → Bool
has_deleted deleting_job = false
has_deleted deleting_secret = false
has_deleted (running p) = true

module _ {S U : Type 0} (objects : Objects U) (kube : KubernetesClient S U) (v : ClusterView S U)
    (c : IsCluster objects kube v) (k : IsStore kube v) (a : IsAvailable objects kube)
    (ns name : String) (specs : ℕ → JobSpec) (named : (i : ℕ) → (specs i).name ≡ name) where
  -- The Secret, if there is one, is of one of the specs.
  abbrev pub IsCurrent : S → Type 0
  IsCurrent s =
      (v.secret s ns name ≡ none) ⊎ ((j : ℕ) × (v.secret s ns name ≡ some (specs j).secrets))

  -- The Job step leaves the Secret's values alone.
  advance-secret :
      (spec : JobSpec) (s : S)
      → v.secret (advance objects kube ns spec secret_done s).1 ns name ≡ v.secret s ns name
  unfolding advance
  advance-secret spec s = elim (Result-cases (build_job objects spec ns)) [
    | inr (x, e) ↦ ground (arith, e)
    | inl (job, e) ↦ ground (arith, e, k.create_job ns job s ns name)
  ]

  step-IsCurrent :
      (i : ℕ) (p : Stage U) (s : S)
      → IsCurrent s
      → IsCurrent (step objects kube ns (replaces (specs i)) p s).1
  unfolding step advance adopt_secret
  step-IsCurrent i deleting_job s h = ground (arith, h, k.delete_job ns (specs i).name s ns name)
  step-IsCurrent i deleting_secret s h =
      ground (arith, h, k.delete_secret ns (specs i).name s ns name)
  step-IsCurrent i (running ready) s h = elim (Bool-cases (is_empty (specs i).secrets)) [
    | inl without ↦ rw without h
    | inr wanted ↦ rw wanted (elim (k.create_secret ns (build_job_secret (specs i) ns) s ns name) [
      | inl same ↦ rw same h
      | inr (m, n, made) ↦ inr (i, made ∙ unfold build_job_secret in refl)
    ])
  ]
  step-IsCurrent i (running secret_done) s h = rw (advance-secret (specs i) s) h
  step-IsCurrent i (running (job_made u)) s h =
      rw (k.patch ns (specs i).name (owner_patch (specs i).name (objects.get_uid u)) s ns name) h
  step-IsCurrent i (running (returned e)) s h = h

  step_deletes :
      (i : ℕ) (p : Stage U) (s : S)
      → has_deleted p ≡ false
      → has_deleted (step objects kube ns (replaces (specs i)) p s).0 ≡ true
      → IsCurrent (step objects kube ns (replaces (specs i)) p s).1
  unfolding step
  step_deletes i deleting_job s h g = ground (arith, g, a.delete_job ns (specs i).name s)
  step_deletes i deleting_secret s h g = rw (← named i) (
      inl (elim (a.delete_secret ns (specs i).name s) [
        | inl e ↦ c.secret_deleted ns (specs i).name s e
        | inr (x, e, f) ↦ c.secret_missing ns (specs i).name x s e f
      ]))
  step_deletes i (running p) s h g = ground (arith, h)

  module _ (Moves : S → S → Type 0)
      (same_values : (s t : S) → Moves s t → v.secret t ns name ≡ v.secret s ns name) where
    -- Once a call has removed the old Secret, what is there is of one of the specs.
    pub Interleaving-IsCurrent :
        {s : S} {y : Work S U} (i : ℕ)
        → Interleaving objects kube Moves ns (λ j. replaces (specs j)) s y
        → has_deleted (y.stage i) ≡ true
        → IsCurrent y.world
    Interleaving-IsCurrent i idle h = ground (arith, h)
    Interleaving-IsCurrent i (turns {y = y} j before) h = elim (Bool-cases (nat_eq i j)) [
      | inr other ↦
          step-IsCurrent j (y.stage j) y.world
            (Interleaving-IsCurrent i before (ground (arith, h, other)))
      | inl mine ↦ (elim (Bool-cases (has_deleted (y.stage j))) [
        | inl deleted ↦
            step-IsCurrent j (y.stage j) y.world (Interleaving-IsCurrent j before deleted)
        | inr kept ↦ step_deletes j (y.stage j) y.world kept (ground (arith, h, mine))
      ])
    ]
    Interleaving-IsCurrent i (moves {y = y} t before moved) h =
        rw (same_values y.world t moved) (Interleaving-IsCurrent i before h)
