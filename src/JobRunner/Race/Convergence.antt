-- ===== src/JobRunner/Race/Convergence.antt =====
-- client/jobrunner.go: any number of `Replace`s of one name, one step at a time in any order.
use managed_services_lib.Common.{
  some, ℕ, String, ◌≡◌, ◌≢◌, ap, ◌⊎◌, inl, inr, Bool, true, false, none, arith, nat_eq, is_empty,
  Bool-cases, Option,
}
use managed_services_lib.Failure.{Error}
use managed_services_lib.Client.Api.{KubernetesClient, Objects}
use managed_services_lib.JobRunner.Types.{JobSpec}
use managed_services_lib.JobRunner.Cluster.{ClusterView, IsCluster}
use managed_services_lib.JobRunner.Contract.{KeepsName}
use managed_services_lib.JobRunner.Available.{IsAvailable}
use managed_services_lib.JobRunner.Race.{returned}
use managed_services_lib.JobRunner.Race.Calls.{Call, replaces, Stage, running, step}
use managed_services_lib.JobRunner.Race.Interleavings.{
  Work, turn, interleaved_calls-none, Interleaving, idle, turns, moves,
}
use managed_services_lib.JobRunner.History.{IsStore}
use managed_services_lib.JobRunner.Race.Origins.{has_deleted, IsCurrent, Interleaving-IsCurrent}
use managed_services_lib.JobRunner.Race.Debts.{
  past_secret, owes_secret, past_job, owes_job, owes_secret_apart, owes_job_apart, IsQuiet,
  IsQuiet-debts, Tends, TendsBoth, step-TendsBoth,
}

-- Something that every call sees to is there once a call has seen to it, or a call owes it.
abbrev Covered :
    {S U : Type 0} → (Stage U → Bool) → (Stage U → Bool) → (S → Type 0) → Work S U → Type 0
Covered past owes There y =
    (i : ℕ) → past (y.stage i) ≡ true → There y.world ⊎ ((j : ℕ) × (owes (y.stage j) ≡ true))

module _ {S U : Type 0} (objects : Objects U) (kube : KubernetesClient S U) (Moves : S → S → Type 0)
    (ns : String) (calls : ℕ → Call) (past owes : Stage U → Bool) (There : S → Type 0)
    (apart : (p : Stage U) → past p ≡ true → owes p ≡ false) where
  turn-Covered :
      (i : ℕ) (y : Work S U)
      → Tends past owes There
          (y.stage i)
          y.world
          (step objects kube ns (calls i) (y.stage i) y.world).0
          (step objects kube ns (calls i) (y.stage i) y.world).1
      → Covered past owes There y
      → Covered past owes There (turn objects kube Moves ns calls i y)
  turn-Covered i y (inl owed) before k h = inr (i, ground (arith, owed))
  turn-Covered i y (inr (inl there)) before k h = inl there
  turn-Covered i y (inr (inr (done, kept))) before k h = elim (before i done) [
    | inl there ↦ inl (kept there)
    | inr (j, owed) ↦ (elim (Bool-cases (nat_eq j i)) [
      | inl mine ↦
          (let same : j ≡ i = ground (arith, mine) in
            let no : ⊥ = ground (arith, same, owed, apart (y.stage i) done) in elim no [ ])
      | inr other ↦ inr (j, rw other owed)
    ])
  ]

Covered-There :
    {S U : Type 0} (past owes : Stage U → Bool) (There : S → Type 0) (y : Work S U)
    → Covered past owes There y
    → (i : ℕ) → ((j : ℕ) → owes (y.stage j) ≡ false)
    → past (y.stage i) ≡ true
    → There y.world
Covered-There past owes There y covered i quiet h = elim (covered i h) [
  | inl there ↦ there
  | inr (j, owed) ↦ (let no : ⊥ = ground (arith, owed, quiet j) in elim no [ ])
]

module _ {S U : Type 0} (objects : Objects U) (kube : KubernetesClient S U) (v : ClusterView S U)
    (c : IsCluster objects kube v) (k : IsStore kube v) (a : IsAvailable objects kube)
    (Moves : S → S → Type 0) (ns name : String) (specs : ℕ → JobSpec)
    (keeps_both : (s t : S)
      → Moves s t
      → (v.has_job s ns name ≡ true → v.has_job t ns name ≡ true)
        × (v.secret t ns name ≡ v.secret s ns name))
    (named : (i : ℕ) → (specs i).name ≡ name) (keeps : (i : ℕ) → KeepsName (specs i) ns)
    (wanted : (i : ℕ) → is_empty (specs i).secrets ≡ false) where
  abbrev CoveredBoth : Work S U → Type 0
  CoveredBoth y =
      Covered past_secret owes_secret (λ s. v.secret s ns name ≢ none) y
      × Covered past_job owes_job (λ s. v.has_job s ns name ≡ true) y

  Interleaving-CoveredBoth :
      {s : S} {y : Work S U}
      → Interleaving objects kube Moves ns (λ i. replaces (specs i)) s y
      → CoveredBoth y
  Interleaving-CoveredBoth idle = (λ i h. ground (arith, h), λ i h. ground (arith, h))
  Interleaving-CoveredBoth (turns {y = y} i before) =
      let (secret, job) = Interleaving-CoveredBoth before in
      let tends : TendsBoth objects kube v c a ns name (y.stage i) y.world
          (step objects kube ns (replaces (specs i)) (y.stage i) y.world) =
        rw (← named i) (
          step-TendsBoth objects kube v c a ns (specs i) (y.stage i) y.world (keeps i)
            (wanted i)) in
      (
        turn-Covered objects kube Moves ns (λ j. replaces (specs j)) past_secret owes_secret
            (λ s. v.secret s ns name ≢ none) owes_secret_apart i y tends.0 secret,
        turn-Covered objects kube Moves ns (λ j. replaces (specs j)) past_job owes_job
            (λ s. v.has_job s ns name ≡ true) owes_job_apart i y tends.1 job,
      )
  Interleaving-CoveredBoth (moves {y = y} t before moved) =
      let (secret, job) = Interleaving-CoveredBoth before in
      let (job_kept, secret_same) = keeps_both y.world t moved in
      (
        λ i h. elim (secret i h) [ inl there ↦ inl (rw secret_same there) | inr owed ↦ inr owed ],
        λ i h. elim (job i h) [ inl there ↦ inl (job_kept there) | inr owed ↦ inr owed ],
      )

  current_secret :
      (t : S)
      → v.secret t ns name ≢ none
      → IsCurrent objects kube v c k a ns name specs named t
      → (j : ℕ) × (v.secret t ns name ≡ some (specs j).secrets)
  current_secret t there (inl gone) = (let no : ⊥ = there gone in elim no [ ])
  current_secret t there (inr (j, e)) = (j, e)

  -- `Replace`s that are going on at the same time come together. However any number of them
  -- interleave, for one name, each with secrets and a `Customize` that keeps the name, on a cluster
  -- that answers its calls and by itself removes no Job of the name and changes no Secret of it:
  -- whenever no call is under way, and one has been made, a Job of the name is there, the Secret of
  -- the name has exactly the secrets of one of the specs, whatever was there at the start, and the
  -- call has returned no error.
  pub interleaved_replaces :
      {s : S} {y : Work S U} (i : ℕ) (e : Option Error)
      → Interleaving objects kube Moves ns (λ j. replaces (specs j)) s y
      → ((j : ℕ) → IsQuiet (y.stage j))
      → y.stage i ≡ running (returned e)
      → (v.has_job y.world ns name ≡ true)
        × ((j : ℕ) × (v.secret y.world ns name ≡ some (specs j).secrets))
        × (e ≡ none)
  interleaved_replaces {y = y} i e schedule quiet h =
      let (secret, job) = Interleaving-CoveredBoth schedule in
      let there =
        Covered-There past_secret owes_secret (λ s. v.secret s ns name ≢ none) y secret i
          (λ j. (IsQuiet-debts (y.stage j) (quiet j)).0) (ap past_secret h) in
      (
        Covered-There past_job owes_job (λ s. v.has_job s ns name ≡ true) y job i
            (λ j. (IsQuiet-debts (y.stage j) (quiet j)).1) (ap past_job h),
        current_secret y.world there (
            Interleaving-IsCurrent objects kube v c k a ns name specs named Moves
              (λ s t moved. (keeps_both s t moved).1) i schedule (ap has_deleted h)),
        interleaved_calls-none objects kube Moves ns (λ j. replaces (specs j)) a i e schedule h,
      )
