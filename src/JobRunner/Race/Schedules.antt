-- ===== src/JobRunner/Race/Schedules.antt =====
-- client/jobrunner.go: any number of `Run`s of one name, one step at a time in any order.
use managed_services_lib.Common.{
  none, ℕ, ◌+◌, ◌≤◌, String, ◌≡◌, ◌≢◌, refl, ◌⊎◌, inl, inr, true, false, arith, is_empty, nat_eq,
  if◌then◌else◌, Bool-cases,
}
use managed_services_lib.Client.Api.{KubernetesClient, Objects}
use managed_services_lib.JobRunner.Types.{JobSpec}
use managed_services_lib.JobRunner.Cluster.{ClusterView, IsCluster}
use managed_services_lib.JobRunner.Contract.{KeepsName}
use managed_services_lib.JobRunner.History.{IsStore}
use managed_services_lib.JobRunner.Race.{Phase, ready, advance}
use managed_services_lib.JobRunner.Race.Invariant.{IsPast, won, Effect, advance-Effect}

-- The cluster, where each `Run` stands, and how many of them have made a Job.
pub record Race (S U : Type 0) : Type 0 where
  pub world : S
  pub phase : ℕ → Phase U
  pub made : ℕ

module _ {S U : Type 0} (objects : Objects U) (kube : KubernetesClient S U) (ns : String)
    (specs : ℕ → JobSpec) where
  -- The `i`th `Run` takes its next step.
  abbrev pub turn : ℕ → Race S U → Race S U
  turn i y =
      let (p, s) = advance objects kube ns (specs i) (y.phase i) y.world in
      record {
        world = s;
        phase = λ j. if nat_eq j i then p else y.phase j;
        made = y.made + won (y.phase i) p;
      }

  -- All `Run`s that there may be have not begun.
  abbrev pub begin : S → Race S U
  begin s = record { world = s; phase = λ i. ready; made = 0 }

  pub data Schedule (s : S) : Race S U → Type 0 where
    idle : Schedule s (begin s)
    turns : {y : Race S U} (i : ℕ) → Schedule s y → Schedule s (turn i y)

module _ {S U : Type 0} (objects : Objects U) (kube : KubernetesClient S U) (v : ClusterView S U)
    (c : IsCluster objects kube v) (k : IsStore kube v) (ns name : String) (specs : ℕ → JobSpec)
    (named : (i : ℕ) → (specs i).name ≡ name) (keeps : (i : ℕ) → KeepsName (specs i) ns)
    (wanted : (i : ℕ) → is_empty (specs i).secrets ≡ false) where
  pub record IsSafe (y : Race S U) : Type 0 where
    pub past : (i : ℕ) → IsPast (y.phase i) → v.secret y.world ns name ≢ none
    pub covered : v.has_job y.world ns name ≡ true → v.secret y.world ns name ≢ none
    pub counted :
        ((v.has_job y.world ns name ≡ false) × (y.made ≡ 0))
        ⊎ ((v.has_job y.world ns name ≡ true) × (y.made ≤ 1))

  turn-Effect :
      (i : ℕ) (y : Race S U)
      → IsSafe y
      → Effect objects kube v c k ns name
          (y.phase i)
          y.world
          (advance objects kube ns (specs i) (y.phase i) y.world).0
          (advance objects kube ns (specs i) (y.phase i) y.world).1
  turn-Effect i y safe = rw (← named i) (
      advance-Effect objects kube v c k ns (specs i) (y.phase i) y.world (keeps i) (wanted i)
        (rw (named i) (safe.past i)))

  turn-IsSafe : (i : ℕ) (y : Race S U) → IsSafe y → IsSafe (turn objects kube ns specs i y)
  turn-IsSafe i y safe =
      let e = turn-Effect i y safe in
      record {
        past = λ j. elim (Bool-cases (nat_eq j i)) [
          | inl mine ↦ rw mine e.secret_there
          | inr other ↦ rw other (λ h. e.secret_kept (safe.past j h))
        ];
        covered = λ h. elim (e.job_appears h) [
          | inl before ↦ e.secret_kept (safe.covered before)
          | inr there ↦ there
        ];
        counted = ground (
          arith,
          e.job_kept,
          e.job_won,
          safe.counted,
          Bool-cases (v.has_job (turn objects kube ns specs i y).world ns name),
        );
      }

  Schedule-IsSafe :
      {s : S} {y : Race S U}
      → v.has_job s ns name ≡ false
      → Schedule objects kube ns specs s y
      → IsSafe y
  Schedule-IsSafe free idle = record {
    past = λ i h. elim h [ ];
    covered = λ h. cc;
    counted = inl (free, refl);
  }
  Schedule-IsSafe free (turns i before) = turn-IsSafe i _ (Schedule-IsSafe free before)

  -- However any number of `Run`s of one name interleave, with any replies to their calls, as long as
  -- nothing but their steps changes the cluster: if there was no Job at the start, all specs have
  -- secrets, and the `Customize` of each keeps the name, then at most one of the `Run`s has made a Job
  -- at any point, and at no point is there a Job of the name without a Secret of the name.
  pub interleaved_runs :
      {s : S} {y : Race S U}
      → v.has_job s ns name ≡ false
      → Schedule objects kube ns specs s y
      → (y.made ≤ 1) × ((v.has_job y.world ns name ≡ false) ⊎ (v.secret y.world ns name ≢ none))
  interleaved_runs {y = y} free schedule =
      let safe = Schedule-IsSafe free schedule in
      (
        ground (arith, safe.counted),
        elim (Bool-cases (v.has_job y.world ns name)) [
          | inl there ↦ inr (safe.covered there)
          | inr gone ↦ inl gone
        ],
      )
