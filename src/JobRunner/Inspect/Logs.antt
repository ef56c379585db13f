-- ===== src/JobRunner/Inspect/Logs.antt =====
-- client/jobrunner.go: `failedPodLogs` takes the logs of the newest pod that has any.
use Prim.Native.String as Text
use managed_services_lib.Common.{
  ◌≤◌, String, ◌≡◌, ◌≢◌, refl, ap, ◌∙◌, ◌⊎◌, inl, inr, not, List, [], ◌∷◌, ◌==◌, eq_iff, arith, All,
  Bool-cases, if◌then◌else◌,
}
use managed_services_lib.Common.Time.{before}
use managed_services_lib.Failure.{Result, ok, err}
use managed_services_lib.Client.Types.{Pod}
use managed_services_lib.Client.Api.{KubernetesClient}
use managed_services_lib.JobRunner.Types.{job_container_name, failure_log_tail_lines}
use managed_services_lib.JobRunner.Inspect.{insert_pod, sort_pods, first_logs, failed_pod_logs}

abbrev pub Listed : Pod → List Pod → Type 0
Listed p [] = ⊥
Listed p (q ∷ qs) = (p ≡ q) ⊎ Listed p qs

-- Newest first.
abbrev IsDescending : List Pod → Type 0
IsDescending [] = Unit
IsDescending (p ∷ ps) = All (λ q. q.creation_timestamp ≤ p.creation_timestamp) ps × IsDescending ps

at_most :
    (p q : Pod) (l : List Pod)
    → q.creation_timestamp ≤ p.creation_timestamp
    → All (λ x. x.creation_timestamp ≤ q.creation_timestamp) l
    → All (λ x. x.creation_timestamp ≤ p.creation_timestamp) l
at_most p q [] h k = tt
at_most p q (x ∷ l) h k = (omega arith, at_most p q l h k.1)

module _ (P : Pod → Type 0) where
  All-insert_pod : (p : Pod) (l : List Pod) → P p → All P l → All P (insert_pod p l)
  unfolding insert_pod
  All-insert_pod p [] h k = (h, tt)
  All-insert_pod p (q ∷ l) h k =
      elim (Bool-cases (before p.creation_timestamp q.creation_timestamp)) [
        | inl e ↦ rw e (k.0, All-insert_pod p l h k.1)
        | inr e ↦ rw e (h, k)
      ]

  All-sort_pods : (l : List Pod) → All P l → All P (sort_pods l)
  unfolding sort_pods
  All-sort_pods [] k = tt
  All-sort_pods (p ∷ l) k = All-insert_pod p (sort_pods l) k.0 (All-sort_pods l k.1)

  All-insert_pod_inv : (p : Pod) (l : List Pod) → All P (insert_pod p l) → P p × All P l
  unfolding insert_pod
  All-insert_pod_inv p [] k = k
  All-insert_pod_inv p (q ∷ l) k =
      elim (Bool-cases (before p.creation_timestamp q.creation_timestamp)) [
        | inl e ↦
            let k' : All P (q ∷ insert_pod p l) = rw e at k in
            let (h, t) = All-insert_pod_inv p l k'.1 in (h, (k'.0, t))
        | inr e ↦ rw e at k
      ]

  All-sort_pods_inv : (l : List Pod) → All P (sort_pods l) → All P l
  unfolding sort_pods
  All-sort_pods_inv [] k = tt
  All-sort_pods_inv (p ∷ l) k =
      let (h, t) = All-insert_pod_inv p (sort_pods l) k in (h, All-sort_pods_inv l t)

Listed-insert_pod : (x p : Pod) (l : List Pod) → Listed x (insert_pod p l) → (x ≡ p) ⊎ Listed x l
unfolding insert_pod
Listed-insert_pod x p [] h = h
Listed-insert_pod x p (q ∷ l) h = ground (arith, Listed-insert_pod x p l)

Listed-sort_pods : (x : Pod) (l : List Pod) → Listed x (sort_pods l) → Listed x l
unfolding sort_pods
Listed-sort_pods x [] h = h
Listed-sort_pods x (p ∷ l) h =
    ground (arith, Listed-insert_pod x p (sort_pods l) h, Listed-sort_pods x l)

insert_pod-IsDescending : (p : Pod) (l : List Pod) → IsDescending l → IsDescending (insert_pod p l)
unfolding insert_pod
insert_pod-IsDescending p [] h = (tt, tt)
insert_pod-IsDescending p (q ∷ l) h =
    elim (Bool-cases (before p.creation_timestamp q.creation_timestamp)) [
      | inl e ↦ rw e (
        All-insert_pod (λ x. x.creation_timestamp ≤ q.creation_timestamp) p l (ground arith) h.0,
        insert_pod-IsDescending p l h.1,
      )
      | inr e ↦ rw e ((ground arith, at_most p q l (ground arith) h.0), h)
    ]

sort_pods-IsDescending : (l : List Pod) → IsDescending (sort_pods l)
unfolding sort_pods
sort_pods-IsDescending [] = tt
sort_pods-IsDescending (p ∷ l) = insert_pod-IsDescending p (sort_pods l) (sort_pods-IsDescending l)

-- What a read of a pod's logs shows: nothing if it fails.
abbrev shown_text : Result String → String
shown_text (ok text) = text
shown_text (err e) = ""

abbrev pub shown : (String → Result String) → Pod → String
shown log_of p = shown_text (log_of p.name)

-- `logs` are those of a newest pod among those that show any, or empty if none does.
abbrev pub IsNewest : (String → Result String) → List Pod → String → Type 0
IsNewest log_of pods logs =
    ((logs ≡ "") × All (λ q. shown log_of q ≡ "") pods)
    ⊎ ((p : Pod) × Listed p pods
        × (logs ≡ shown log_of p)
        × (logs ≢ "")
        × All (λ q. (shown log_of q ≡ "") ⊎ (q.creation_timestamp ≤ p.creation_timestamp)) pods)

no_newer :
    (log_of : String → Result String) (p : Pod) (l : List Pod)
    → All (λ q. q.creation_timestamp ≤ p.creation_timestamp) l
    → All (λ q. (shown log_of q ≡ "") ⊎ (q.creation_timestamp ≤ p.creation_timestamp)) l
no_newer log_of p [] h = tt
no_newer log_of p (q ∷ l) h = (inr h.0, no_newer log_of p l h.1)

-- One more pod, at least as new as the others.
IsNewest-cons :
    (log_of : String → Result String) (p : Pod) (ps : List Pod) (logs : String)
    → All (λ q. q.creation_timestamp ≤ p.creation_timestamp) ps
    → IsNewest log_of ps logs
    → IsNewest log_of (p ∷ ps) (if shown log_of p == "" then logs else shown log_of p)
IsNewest-cons log_of p ps logs h (inl (e, none_shown)) = elim (Bool-cases (shown log_of p == "")) [
  | inl blank ↦ rw blank (inl (e, ((eq_iff _ _).0 blank, none_shown)))
  | inr has ↦ rw has (
      inr (
        p,
        inl refl,
        refl,
        λ nil. cc ((eq_iff (shown log_of p) "").1 nil),
        (inr (omega arith), no_newer log_of p ps h),
      ))
]
IsNewest-cons log_of p ps logs h (inr (q, listed, e, ne, older)) =
    elim (Bool-cases (shown log_of p == "")) [
      | inl blank ↦ rw blank (inr (q, inr listed, e, ne, (inl ((eq_iff _ _).0 blank), older)))
      | inr has ↦ rw has (
          inr (
            p,
            inl refl,
            refl,
            λ nil. cc ((eq_iff (shown log_of p) "").1 nil),
            (inr (omega arith), no_newer log_of p ps h),
          ))
    ]

All_listed :
    (log_of : String → Result String) (pods : List Pod) (logs : String)
    → IsNewest log_of (sort_pods pods) logs
    → IsNewest log_of pods logs
All_listed log_of pods logs (inl (e, h)) = inl (e, All-sort_pods_inv _ pods h)
All_listed log_of pods logs (inr (p, listed, e, ne, h)) =
    inr (p, Listed-sort_pods p pods listed, e, ne, All-sort_pods_inv _ pods h)

-- One round of the loop, given what comes after it.
first_or :
    {S : Type 0} (r : Result String) (s : S) (rest : String × S)
    → (elim r as (λ _. String × S) [
      | ok logs ↦ if not (logs == "") then (logs, s) else rest
      | err e ↦ rest
    ]).0
      ≡ (if shown_text r == "" then rest.0 else shown_text r)
first_or (ok text) s rest = ground arith
first_or (err e) s rest = refl

module _ {S U : Type 0} (kube : KubernetesClient S U) (log_of : String → Result String)
    (ns : String) (s : S)
    (read : (name : String)
      → ((kube.get_pod_logs ns name job_container_name failure_log_tail_lines s).0 ≡ log_of name)
        × ((kube.get_pod_logs ns name job_container_name failure_log_tail_lines s).1 ≡ s)) where
  first_logs-cons :
      (p : Pod) (ps : List Pod)
      → (first_logs kube ns (p ∷ ps) s).0
        ≡ (if shown log_of p == "" then (first_logs kube ns ps s).0 else shown log_of p)
  unfolding first_logs
  first_logs-cons p ps =
      rw ((read p.name).0, first_logs)
        (first_or (log_of p.name)
          (kube.get_pod_logs ns p.name job_container_name failure_log_tail_lines s).1
          (first_logs kube ns ps
            (kube.get_pod_logs ns p.name job_container_name failure_log_tail_lines s).1))
      ∙ ap (λ (w : S). if shown log_of p == "" then (first_logs kube ns ps w).0 else shown log_of p)
          (read p.name).1

  first_logs-IsNewest :
      (pods : List Pod) → IsDescending pods → IsNewest log_of pods (first_logs kube ns pods s).0
  unfolding first_logs
  first_logs-IsNewest [] h = inl (refl, tt)
  first_logs-IsNewest (p ∷ ps) h =
      rw (first_logs-cons p ps)
        (IsNewest-cons log_of p ps (first_logs kube ns ps s).0 h.0 (first_logs-IsNewest ps h.1))

  -- Where reading a pod's logs changes nothing, the logs that explain a failed Job are those of a
  -- newest pod among the Job's pods that have readable logs, in whatever order the pods are listed;
  -- they are empty exactly if no pod has any.
  pub failed_pod_logs-IsNewest :
      (job_name : String) (pods : List Pod)
      → (kube.list_pods ns (Text.◌++◌ "job-name=" job_name) s).0 ≡ ok pods
      → (kube.list_pods ns (Text.◌++◌ "job-name=" job_name) s).1 ≡ s
      → IsNewest log_of pods (failed_pod_logs kube ns job_name s).0
  unfolding failed_pod_logs
  failed_pod_logs-IsNewest job_name pods listed same =
      rw (listed, same, failed_pod_logs)
        (All_listed log_of pods (first_logs kube ns (sort_pods pods) s).0
          (first_logs-IsNewest (sort_pods pods) (sort_pods-IsDescending pods)))
