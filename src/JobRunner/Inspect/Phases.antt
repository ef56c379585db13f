-- ===== src/JobRunner/Inspect/Phases.antt =====
-- client/jobrunner.go: how the phase that `State` reports moves while the Job controller works.
use managed_services_lib.Common.{
  String, ◌≡◌, ◌⊎◌, ◌∙◌, inl, inr, refl, Bool, true, false, ◌||◌, List, [], ◌∷◌, ◌++◌, ◌==◌, arith,
  any, Option, eq_iff, ap,
}
use managed_services_lib.Common.Int.{ℤ}
use managed_services_lib.Common.Time.{Time}
use managed_services_lib.Client.Types.{Job, JobStatus, JobCondition}
use managed_services_lib.Client.Api.{KubernetesClient}
use managed_services_lib.JobRunner.Types.{JobPhase, succeeded, failed}
use managed_services_lib.JobRunner.Inspect.{condition_true, snapshot, job_complete, job_failed}

-- A condition that ends a Job.
abbrev pub is_terminal : JobCondition → Bool
is_terminal c = c.type == job_complete || c.type == job_failed

-- What the Job controller does to a Job's status: it adds conditions, but none that ends a Job which
-- has ended, and it changes only conditions of another kind (batch/v1: `Complete` and `Failed`
-- exclude each other and cannot be disabled). Counts and times may change at will.
pub data ControllerStep : JobStatus → JobStatus → Type 0 where
  progress :
      (st : JobStatus) (start end : Option Time) (active : ℤ)
      → ControllerStep st (record st { start_time = start; completion_time = end; active = active })
  add :
      (st : JobStatus) (c : JobCondition)
      → (any is_terminal st.conditions ≡ false) ⊎ (is_terminal c ≡ false)
      → ControllerStep st (record st { conditions = st.conditions ++ c ∷ [] })
  change :
      (st : JobStatus) (before after : List JobCondition) (c d : JobCondition)
      → is_terminal c ≡ false
      → d.type ≡ c.type
      → st.conditions ≡ before ++ c ∷ after
      → ControllerStep st (record st { conditions = before ++ d ∷ after })

pub data ControllerSteps (st : JobStatus) : JobStatus → Type 0 where
  here : ControllerSteps st st
  next : {u w : JobStatus} → ControllerSteps st u → ControllerStep u w → ControllerSteps st w

condition_true_found :
    (t : String) (cs : List JobCondition)
    → (t ≡ job_complete) ⊎ (t ≡ job_failed)
    → condition_true t cs ≡ true
    → any is_terminal cs ≡ true
unfolding condition_true
condition_true_found t [] h e = cc
condition_true_found t (c ∷ cs) h e = ground (
  arith,
  condition_true_found t cs h,
  eq_iff c.type t,
  eq_iff c.type job_complete,
  eq_iff c.type job_failed,
)

condition_true-add :
    (t : String) (cs : List JobCondition) (c : JobCondition)
    → c.type == t ≡ false
    → condition_true t (cs ++ c ∷ []) ≡ condition_true t cs
unfolding condition_true
condition_true-add t [] c h = ground (arith, h)
condition_true-add t (d ∷ cs) c h = ground (arith, condition_true-add t cs c h)

condition_true-change :
    (t : String) (before after : List JobCondition) (c d : JobCondition)
    → c.type == t ≡ false
    → d.type ≡ c.type
    → condition_true t (before ++ d ∷ after) ≡ condition_true t (before ++ c ∷ after)
unfolding condition_true
condition_true-change t [] after c d h e = ground (arith, h, ap (λ (x : String). x == t) e)
condition_true-change t (b ∷ before) after c d h e =
    ground (arith, condition_true-change t before after c d h e)

-- The two answers on which the phase of a finished Job depends.
abbrev verdict : JobStatus → Bool × Bool
verdict st = (condition_true job_complete st.conditions, condition_true job_failed st.conditions)

any_terminal-add :
    (cs : List JobCondition) (c : JobCondition)
    → any is_terminal cs ≡ true
    → any is_terminal (cs ++ c ∷ []) ≡ true
any_terminal-add [] c h = cc
any_terminal-add (d ∷ cs) c h = ground (arith, any_terminal-add cs c)

any_terminal-change :
    (before after : List JobCondition) (c d : JobCondition)
    → is_terminal c ≡ false
    → any is_terminal (before ++ c ∷ after) ≡ true
    → any is_terminal (before ++ d ∷ after) ≡ true
any_terminal-change [] after c d h e = ground (arith, h, e)
any_terminal-change (b ∷ before) after c d h e =
    ground (arith, any_terminal-change before after c d h)

-- A step on a Job that has ended changes no verdict, and the Job stays ended.
ControllerStep-verdict :
    {u w : JobStatus}
    → ControllerStep u w
    → any is_terminal u.conditions ≡ true
    → (verdict w ≡ verdict u) × (any is_terminal w.conditions ≡ true)
ControllerStep-verdict (progress st start end active) e = (refl, e)
ControllerStep-verdict (add st c h) e = ground (
  arith,
  any_terminal-add st.conditions c e,
  condition_true-add job_complete st.conditions c,
  condition_true-add job_failed st.conditions c,
)
ControllerStep-verdict (change st before after c d h same there) e = ground (
  arith,
  e,
  there,
  any_terminal-change before after c d h,
  condition_true-change job_complete before after c d,
  condition_true-change job_failed before after c d,
)

ControllerSteps-verdict :
    {u w : JobStatus}
    → ControllerSteps u w
    → any is_terminal u.conditions ≡ true
    → (verdict w ≡ verdict u) × (any is_terminal w.conditions ≡ true)
ControllerSteps-verdict here e = (refl, e)
ControllerSteps-verdict (next steps st) e =
    let (same, ended) = ControllerSteps-verdict steps e in
    let (same', ended') = ControllerStep-verdict st ended in (same' ∙ same, ended')

-- A phase that ends a poll.
abbrev pub IsFinal : JobPhase → Type 0
IsFinal p = (p ≡ succeeded) ⊎ (p ≡ failed)

module _ {S U : Type 0} (kube : KubernetesClient S U) where
  IsFinal-ended :
      (job : Job) (s : S)
      → IsFinal (snapshot kube job s).0.phase
      → any is_terminal job.status.conditions ≡ true
  unfolding snapshot
  IsFinal-ended job s h = ground (
    arith,
    condition_true_found job_complete job.status.conditions (inl refl),
    condition_true_found job_failed job.status.conditions (inr refl),
  )

  verdict-phase :
      (job : Job) (st : JobStatus) (s t : S)
      → verdict st ≡ verdict job.status
      → IsFinal (snapshot kube job s).0.phase
      → (snapshot kube (record job { status = st }) t).0.phase ≡ (snapshot kube job s).0.phase
  unfolding snapshot
  verdict-phase job st s t same h =
      ground (arith, ap (λ (v : Bool × Bool). v.0) same, ap (λ (v : Bool × Bool). v.1) same)

  -- A final phase is final: once `State` reports a Job as succeeded or failed, it reports the same
  -- for that Job after any further steps of the Job controller, whatever the pods' logs are then.
  pub snapshot-IsFinal :
      (job : Job) (st : JobStatus) (s t : S)
      → ControllerSteps job.status st
      → IsFinal (snapshot kube job s).0.phase
      → (snapshot kube (record job { status = st }) t).0.phase ≡ (snapshot kube job s).0.phase
  snapshot-IsFinal job st s t steps h =
      verdict-phase job st s t (ControllerSteps-verdict steps (IsFinal-ended job s h)).0 h
