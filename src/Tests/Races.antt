-- ===== src/Tests/Races.antt =====
-- Two `Run`s of one name at a time, and a cluster that answers every call.
use managed_services_lib.Common.{
  Bool-cases, Option-cases, ℕ, ◌≤◌, String, ◌≡◌, ◌≢◌, refl, ◌⊎◌, inl, inr, true, false, none, some,
  [], ◌∷◌, arith, is_empty, nat_eq, if◌then◌else◌,
}
use managed_services_lib.JobRunner.Available.{calls_succeed}
use managed_services_lib.JobRunner.Dispatch.{run, delete, replace}
use managed_services_lib.Common.{if◌then◌else◌, is_empty, some, none, true}
use managed_services_lib.Model.Kubernetes.{job_api}
use managed_services_lib.Failure.{Error, ok, err, sentinel, resource_conflict, is}
use managed_services_lib.Client.Types.{Secret, Job}
use managed_services_lib.JobRunner.Types.{JobSpec}
use managed_services_lib.JobRunner.Build.{build_job, build_job_secret, plain_job}
use managed_services_lib.JobRunner.Contract.{KeepsName}
use managed_services_lib.JobRunner.Dispatch.{replace}
use managed_services_lib.JobRunner.Available.{IsAvailable}
use managed_services_lib.JobRunner.Race.{returned, advance}
use managed_services_lib.JobRunner.Race.Calls.{Call, replaces, running, step}
use managed_services_lib.JobRunner.Race.Interleavings
use managed_services_lib.JobRunner.Race.Interleavings.{Work, Interleaving}
use managed_services_lib.JobRunner.Race.Debts.{IsQuiet}
use managed_services_lib.JobRunner.Race.Convergence.{interleaved_replaces}
use managed_services_lib.Common.{sym, Option}
use managed_services_lib.JobRunner.Race.Schedules.{
  Race, begin, turn, Schedule, idle, turns, interleaved_runs,
}
use managed_services_lib.Tests.Memory.{World, empty, memory, objects, view, memory-IsCluster}
use managed_services_lib.Tests.Histories.{memory-IsStore}
use managed_services_lib.Tests.Jobs.{backup_spec, backup_name}

job_reply :
    (ns : String) (job : Job) (w : World)
    → ((r : Job) × ((memory.create job_api ns job w).0 ≡ ok r))
      ⊎ ((e : Error) × ((memory.create job_api ns job w).0 ≡ err e)
          × (is e resource_conflict ≡ true))
unfolding is
job_reply ns job w = elim (Bool-cases (w.taken ns job.name)) [
  | inl taken ↦ inr (sentinel resource_conflict, rw taken, refl)
  | inr free ↦ inl (job, rw free)
]

secret_reply :
    (ns : String) (secret : Secret) (w : World)
    → ((r : Secret) × ((memory.create_secret ns secret w).0 ≡ ok r))
      ⊎ ((e : Error) × ((memory.create_secret ns secret w).0 ≡ err e)
          × (is e resource_conflict ≡ true))
unfolding is
secret_reply ns secret w = elim (Option-cases (w.values ns secret.name)) [
  | inr (old, there) ↦ inr (sentinel resource_conflict, ground (arith, there), refl)
  | inl free ↦ inl (secret, ground (arith, free))
]

memory-IsAvailable : IsAvailable objects memory
memory-IsAvailable = record {
  converts = λ job. (job, refl);
  create_job = job_reply;
  create_secret = secret_reply;
  delete_job = λ ns name s. inl refl;
  delete_secret = λ ns name s. inl refl;
}

calls_succeed_example :
    ((run objects memory "rg-1" backup_spec empty).0 ≡ none)
    × ((delete objects memory "rg-1" backup_spec.name empty).0 ≡ none)
    × ((replace objects memory "rg-1" backup_spec empty).0 ≡ none)
    × (view.has_job (replace objects memory "rg-1" backup_spec empty).1 "rg-1" backup_spec.name
        ≡ true)
    × (view.secret (replace objects memory "rg-1" backup_spec empty).1 "rg-1" backup_spec.name
        ≡ (if is_empty backup_spec.secrets then none else some backup_spec.secrets))
calls_succeed_example =
    calls_succeed objects memory memory-IsAvailable view memory-IsCluster "rg-1" backup_spec empty
      backup_name

-- The second replica has rotated credentials.
abbrev rotated : JobSpec
rotated = record backup_spec { secrets = ("KEY", "rotated") ∷ [] }

abbrev replicas : ℕ → JobSpec
replicas i = if nat_eq i 0 then backup_spec else rotated

-- Both find the name free; the first makes the Secret and the second the Job.
abbrev crossed : Race World Job
crossed = turn objects memory "rg-1" replicas 0 (
    turn objects memory "rg-1" replicas 1 (
      turn objects memory "rg-1" replicas 1
        (turn objects memory "rg-1" replicas 0 (begin objects memory "rg-1" replicas empty))))

crossing : Schedule objects memory "rg-1" replicas empty crossed
crossing = turns 0 (turns 1 (turns 1 (turns 0 idle)))

replicas-name : (i : ℕ) → (replicas i).name ≡ "backup-b1"
replicas-name i = ground arith

replicas-KeepsName : (i : ℕ) → KeepsName (replicas i) "rg-1"
unfolding plain_job
replicas-KeepsName i = ground arith

replicas_wanted : (i : ℕ) → is_empty (replicas i).secrets ≡ false
replicas_wanted i = ground arith

interleaved_runs_example :
    (crossed.made ≤ 1)
    × ((view.has_job crossed.world "rg-1" "backup-b1" ≡ false)
        ⊎ (view.secret crossed.world "rg-1" "backup-b1" ≢ none))
interleaved_runs_example =
    interleaved_runs objects memory view memory-IsCluster memory-IsStore "rg-1" "backup-b1" replicas
      replicas-name replicas-KeepsName replicas_wanted refl crossing

-- The second `Run` has made the Job, and it reads the first one's credentials.
crossed_credentials :
    (crossed.made ≡ 1)
    × (view.secret crossed.world "rg-1" "backup-b1" ≡ some (("KEY", "s3cret") ∷ []))
unfolding advance build_job build_job_secret plain_job is
crossed_credentials = (refl, refl)

-- Two `Replace`s. The first one's deletion of the Secret comes after the second has made its Job.
abbrev rival : ℕ → Call
rival i = replaces (replicas i)

abbrev Calm : World → World → Type 0
Calm s t = s ≡ t

abbrev go : ℕ → Work World Job → Work World Job
go = Interleavings.turn objects memory Calm "rg-1" rival

abbrev before_deletion : Work World Job
before_deletion =
    go 0 (go 0 (go 0 (go 0 (go 1 (Interleavings.begin objects memory Calm "rg-1" rival empty)))))

abbrev ended : Work World Job
ended = go 0 (go 1 (go 1 (go 1 before_deletion)))

ending : Interleaving objects memory Calm "rg-1" rival empty ended
ending = Interleavings.turns 0 (
    Interleavings.turns 1 (
      Interleavings.turns 1 (
        Interleavings.turns 1 (
          Interleavings.turns 0 (
            Interleavings.turns 0 (
              Interleavings.turns 0
                (Interleavings.turns 0 (Interleavings.turns 1 Interleavings.idle))))))))

ended_stage : ended.stage 0 ≡ running (returned none)
unfolding step advance build_job build_job_secret plain_job is
ended_stage = refl

-- The Job of the second is without its Secret for a while.
lost_secret :
    (view.has_job (go 1 before_deletion).world "rg-1" "backup-b1" ≡ true)
    × (view.secret (go 1 before_deletion).world "rg-1" "backup-b1" ≡ none)
unfolding step advance build_job build_job_secret plain_job is
lost_secret = (refl, refl)

ended-IsQuiet : (j : ℕ) → IsQuiet (ended.stage j)
unfolding step advance build_job build_job_secret plain_job is
ended-IsQuiet j = elim (Bool-cases (nat_eq j 0)) [
  | inl first ↦ rw first (inr (none, refl))
  | inr later ↦ (elim (Bool-cases (nat_eq j 1)) [
    | inl second ↦ rw (later, second) (inr (none, refl))
    | inr other ↦ rw (later, other) (inl refl)
  ])
]

abbrev no_error : Option Error
no_error = none

interleaved_replaces_example :
    (view.has_job ended.world "rg-1" "backup-b1" ≡ true)
    × ((j : ℕ) × (view.secret ended.world "rg-1" "backup-b1" ≡ some (replicas j).secrets))
    × (no_error ≡ none)
interleaved_replaces_example =
    interleaved_replaces objects memory view memory-IsCluster memory-IsStore memory-IsAvailable Calm
      "rg-1" "backup-b1" replicas (λ s t same. (λ h. rw (sym same) h, rw same refl)) replicas-name
      replicas-KeepsName replicas_wanted 0 none ending ended-IsQuiet ended_stage
