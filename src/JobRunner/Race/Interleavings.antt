-- ===== src/JobRunner/Race/Interleavings.antt =====
-- client/jobrunner.go: any number of `Run`s, `Replace`s and `Delete`s, one step at a time in any order,
-- between which the cluster changes by itself.
use managed_services_lib.Common.{
  ℕ, String, ◌≡◌, refl, sym, ap, ◌∙◌, Option, none, some, arith, nat_eq, if◌then◌else◌, Bool-cases,
  inl, inr, Bool, true, false,
}
use managed_services_lib.Failure.{Error}
use managed_services_lib.Client.Api.{KubernetesClient, Objects}
use managed_services_lib.JobRunner.Types.{JobSpec}
use managed_services_lib.JobRunner.Build.{build_job, build_job_secret, plain_job, customized}
use managed_services_lib.JobRunner.Available.{IsAvailable}
use managed_services_lib.JobRunner.Race.{Phase, ready, secret_done, job_made, returned, advance}
use managed_services_lib.JobRunner.Race.Calls.{
  Call, runs, replaces, deletes, Stage, deleting_job, deleting_secret, running, first_stage, step,
  name_of,
}

-- The cluster, and where each call stands.
pub record Work (S U : Type 0) : Type 0 where
  pub world : S
  pub stage : ℕ → Stage U

abbrev failed : {U : Type 0} → Stage U → Bool
failed (running (returned (some e))) = true
failed p = false

module _ {S U : Type 0} (objects : Objects U) (kube : KubernetesClient S U) (ns : String) where
  -- On a cluster that answers no step ends in an error.
  module _ (a : IsAvailable objects kube) where
    advance-failed :
        (spec : JobSpec) (p : Phase U) (s : S)
        → failed (running p) ≡ false
        → failed (running (advance objects kube ns spec p s).0) ≡ false
    unfolding advance build_job
    advance-failed spec ready s h = ground (arith, a.create_secret ns (build_job_secret spec ns) s)
    advance-failed spec secret_done s h =
        let (u, e) = a.converts (customized spec.customize (plain_job spec ns)) in
        ground (arith, e, a.create_job ns u s)
    advance-failed spec (job_made u) s h = refl
    advance-failed spec (returned none) s h = refl
    advance-failed spec (returned (some e)) s h = h

    step-failed :
        (c : Call) (p : Stage U) (s : S)
        → failed p ≡ false
        → failed (step objects kube ns c p s).0 ≡ false
    unfolding step
    step-failed c deleting_job s h = ground (arith, a.delete_job ns (name_of c) s)
    step-failed (runs spec) deleting_secret s h = ground (arith, a.delete_secret ns spec.name s)
    step-failed (replaces spec) deleting_secret s h = ground (arith, a.delete_secret ns spec.name s)
    step-failed (deletes name) deleting_secret s h = ground (arith, a.delete_secret ns name s)
    step-failed (runs spec) (running p) s h = advance-failed spec p s h
    step-failed (replaces spec) (running p) s h = advance-failed spec p s h
    step-failed (deletes name) (running p) s h = h

module _ {S U : Type 0} (objects : Objects U) (kube : KubernetesClient S U) (Moves : S → S → Type 0)
    (ns : String) (calls : ℕ → Call) where
  -- The `i`th call takes its next step.
  abbrev pub turn : ℕ → Work S U → Work S U
  turn i y =
      let (p, s) = step objects kube ns (calls i) (y.stage i) y.world in
      record { world = s; stage = λ j. if nat_eq j i then p else y.stage j }

  -- No call has begun.
  abbrev pub begin : S → Work S U
  begin s = record { world = s; stage = λ i. first_stage (calls i) }

  pub data Interleaving (s : S) : Work S U → Type 0 where
    idle : Interleaving s (begin s)
    turns : {y : Work S U} (i : ℕ) → Interleaving s y → Interleaving s (turn i y)
    moves :
        {y : Work S U} (t : S)
        → Interleaving s y
        → Moves y.world t
        → Interleaving s (record y { world = t })

  module _ (a : IsAvailable objects kube) where
    first_stage-failed : (c : Call) → failed {U = U} (first_stage c) ≡ false
    first_stage-failed (runs spec) = refl
    first_stage-failed (replaces spec) = refl
    first_stage-failed (deletes name) = refl

    Interleaving-failed :
        {s : S} {y : Work S U} (i : ℕ) → Interleaving s y → failed (y.stage i) ≡ false
    Interleaving-failed i idle = first_stage-failed (calls i)
    Interleaving-failed i (turns {y = y} j before) = elim (Bool-cases (nat_eq i j)) [
      | inl mine ↦ rw mine (
          step-failed objects kube ns a (calls j) (y.stage j) y.world
            (Interleaving-failed j before))
      | inr other ↦ rw other (Interleaving-failed i before)
    ]
    Interleaving-failed i (moves t before step) = Interleaving-failed i before

    returned-none : (e : Option Error) → failed {U = U} (running (returned e)) ≡ false → e ≡ none
    returned-none none h = refl
    returned-none (some e) h = ground (arith, h)

    -- On a cluster that answers its calls none of the calls fails, whatever the others do meanwhile.
    pub interleaved_calls-none :
        {s : S} {y : Work S U} (i : ℕ) (e : Option Error)
        → Interleaving s y
        → y.stage i ≡ running (returned e)
        → e ≡ none
    interleaved_calls-none i e schedule h =
        returned-none e (ap failed (sym h) ∙ Interleaving-failed i schedule)
