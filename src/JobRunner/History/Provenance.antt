-- ===== src/JobRunner/History/Provenance.antt =====
-- client/jobrunner.go over time: where the values of a Secret come from.
use managed_services_lib.Common.{
  String, ◌≡◌, refl, ◌⊎◌, inl, inr, Option, none, some, List, [], ◌∷◌, Option-cases,
}
use managed_services_lib.Common.StringMap.{StringMap}
use managed_services_lib.Client.Api.{KubernetesClient, Objects}
use managed_services_lib.JobRunner.Types.{JobSpec}
use managed_services_lib.JobRunner.Cluster.{ClusterView}
use managed_services_lib.JobRunner.Dispatch.{run, delete, replace}
use managed_services_lib.JobRunner.History.{
  IsStore, History, start, runs, replaces, deletes, polls, moves,
}
use managed_services_lib.JobRunner.History.Effects.{run-Dispatched, delete-secret, state-same}

-- A spec of the history was dispatched under a name with the given secrets.
abbrev pub Given : List (String × JobSpec) → String → String → StringMap String → Type 0
Given [] m name values = ⊥
Given ((ns, spec) ∷ d) m name values =
    ((m ≡ ns) × (name ≡ spec.name) × (spec.secrets ≡ values)) ⊎ Given d m name values

-- The values of a Secret at the end of a history: there is none, or it is as it was at the start, or
-- a spec of the history gave them for that name.
abbrev pub Origin :
    List (String × JobSpec)
    → Option (StringMap String)
    → String
    → String
    → Option (StringMap String)
    → Type 0
Origin d before m name now =
    (now ≡ none)
    ⊎ (now ≡ before)
    ⊎ ((values : StringMap String) × (now ≡ some values) × Given d m name values)

Origin-later :
    (d : List (String × JobSpec)) (before now : Option (StringMap String)) (m name ns : String)
    (spec : JobSpec)
    → Origin d before m name now
    → Origin ((ns, spec) ∷ d) before m name now
Origin-later d before now m name ns spec (inl e) = inl e
Origin-later d before now m name ns spec (inr (inl e)) = inr (inl e)
Origin-later d before now m name ns spec (inr (inr (values, e, g))) = inr (inr (values, e, inr g))

module _ {S U : Type 0} (objects : Objects U) (kube : KubernetesClient S U) (v : ClusterView S U)
    (k : IsStore kube v) where
  run-Origin :
      (d : List (String × JobSpec)) (before : Option (StringMap String)) (ns : String)
      (spec : JobSpec) (t : S) (m name : String)
      → Origin d before m name (v.secret t m name)
      → Origin ((ns, spec) ∷ d) before m name (v.secret (run objects kube ns spec t).1 m name)
  run-Origin d before ns spec t m name o = elim (run-Dispatched objects kube v k ns spec t m name) [
    | inl same ↦ rw same (Origin-later d before (v.secret t m name) m name ns spec o)
    | inr (a, b, e) ↦ inr (inr (spec.secrets, e, inl (a, b, refl)))
  ]

  delete-Origin :
      (d : List (String × JobSpec)) (before : Option (StringMap String)) (ns job : String) (t : S)
      (m name : String)
      → Origin d before m name (v.secret t m name)
      → Origin d before m name (v.secret (delete objects kube ns job t).1 m name)
  delete-Origin d before ns job t m name o = elim (delete-secret objects kube v k ns job t m name) [
    | inl same ↦ rw same o
    | inr gone ↦ inl gone
  ]

  replace-Origin :
      (d : List (String × JobSpec)) (before : Option (StringMap String)) (ns : String)
      (spec : JobSpec) (t : S) (m name : String)
      → Origin d before m name (v.secret t m name)
      → Origin ((ns, spec) ∷ d) before m name (v.secret (replace objects kube ns spec t).1 m name)
  unfolding replace
  replace-Origin d before ns spec t m name o =
      let o' = delete-Origin d before ns spec.name t m name o in
      let u : S = (delete objects kube ns spec.name t).1 in
      elim (Option-cases (delete objects kube ns spec.name t).0) [
        | inl e ↦ rw (e, replace) (run-Origin d before ns spec u m name o')
        | inr (x, e) ↦ rw (e, replace) (Origin-later d before (v.secret u m name) m name ns spec o')
      ]

  module _ (Moves : S → S → Type 0)
      (collects : (t u : S) (m name : String)
        → Moves t u
        → (v.secret u m name ≡ v.secret t m name) ⊎ (v.secret u m name ≡ none)) where
    -- No credentials appear from nowhere: after any history of `Run`, `Replace`, `Delete` and `State`
    -- calls, failed ones included, interleaved with a cluster that by itself changes Secrets only by
    -- removing them, every Secret is gone, or as it was at the start, or holds exactly the secrets
    -- of one spec that was dispatched under its name in its namespace.
    pub History-Origin :
        {s t : S} {d : List (String × JobSpec)}
        → History objects kube Moves s d t
        → (m name : String) → Origin d (v.secret s m name) m name (v.secret t m name)
    History-Origin start m name = inr (inl refl)
    History-Origin {s} (runs ns spec h) m name =
        run-Origin _ (v.secret s m name) ns spec _ m name (History-Origin h m name)
    History-Origin {s} (replaces ns spec h) m name =
        replace-Origin _ (v.secret s m name) ns spec _ m name (History-Origin h m name)
    History-Origin {s} (deletes ns job h) m name =
        delete-Origin _ (v.secret s m name) ns job _ m name (History-Origin h m name)
    History-Origin {s} {d = d} (polls {t = t} ns job h) m name =
        rw (state-same objects kube v k ns job t) (History-Origin h m name)
    History-Origin {s} (moves {t = t} {u = u} h step) m name = elim (collects t u m name step) [
      | inl same ↦ rw same (History-Origin h m name)
      | inr gone ↦ inl gone
    ]
