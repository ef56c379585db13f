-- ===== src/JobRunner/Build/Env.antt =====
-- client/jobrunner.go: `buildEnv` does not depend on the order of Go's maps, and what a container
-- reads from the environment.
use mathlib.Core.Path.{fun_ext}
use mathlib.Core.Option
use mathlib.Core.List.{Permᴰ}
use managed_services_lib.Common.{
  String, ◌≡◌, refl, ◌∙◌, Option, none, some, List, [], ◌∷◌, ◌++◌, map, any, arith, ◌==◌, eq_iff,
  if◌then◌else◌,
}
use managed_services_lib.Common.Order.{any-sort_strings}
use managed_services_lib.Common.StringMap.{
  StringMap, lookup, keys, has_key, sorted_keys, IsMap, lookup-perm, sorted_keys-perm,
  lookup_missing, lookup_present, any-keys,
}
use managed_services_lib.Client.Types.{EnvVar, EnvSource, plain, secret_key_ref}
use managed_services_lib.JobRunner.Types.{JobSpec}
use managed_services_lib.JobRunner.Build.{build_env, read, plain_var, secret_var}

-- Whatever order Go meets the entries of the two maps in, the environment is the same.
pub build_env-perm :
    (spec : JobSpec) {env secrets : StringMap String}
    → IsMap spec.env
    → Permᴰ spec.env env
    → Permᴰ spec.secrets secrets
    → build_env (record spec { env = env; secrets = secrets }) ≡ build_env spec
unfolding build_env
build_env-perm spec {env} {secrets} u p q = rw (
  ← sorted_keys-perm p,
  ← sorted_keys-perm q,
  ← fun_ext {f = plain_var spec.env} {g = plain_var env} (λ k. ground (arith, lookup-perm k p u)),
)

-- What a container reads: of the variables of one name Kubernetes takes the last.
abbrev pub effective : String → List EnvVar → Option EnvSource
effective k [] = none
effective k (x ∷ xs) = elim (effective k xs) [
  | none ↦ (if x.name == k then some x.source else none)
  | some v ↦ some v
]

effective-append :
    (k : String) (xs ys : List EnvVar)
    → effective k (xs ++ ys) ≡ elim (effective k ys) [ none ↦ effective k xs | some v ↦ some v ]
effective-append k [] ys = ground arith
effective-append k (x ∷ xs) ys = ground (arith, effective-append k xs ys)

effective-plain :
    (m : StringMap String) (k : String) (l : List String)
    → effective k (map (plain_var m) l)
      ≡ (if any (λ j. j == k) l then some (plain (read m k)) else none)
effective-plain m k [] = refl
effective-plain m k (j ∷ l) = ground (arith, effective-plain m k l, eq_iff j k)

effective-secret :
    (name k : String) (l : List String)
    → effective k (map (secret_var name) l)
      ≡ (if any (λ j. j == k) l then some (secret_key_ref name k) else none)
effective-secret name k [] = refl
effective-secret name k (j ∷ l) = ground (arith, effective-secret name k l, eq_iff j k)

any-sorted_keys :
    (k : String) (m : StringMap String) → any (λ j. j == k) (sorted_keys m) ≡ has_key k m
unfolding sorted_keys
any-sorted_keys k m = any-sort_strings k (keys m) ∙ any-keys k m

-- The environment of a container: a secret of the name is read from the Job's Secret under its own
-- key, even if a plain variable has that name too; any other name has its plain value, or is unset.
pub effective-build_env :
    (spec : JobSpec) (k : String)
    → effective k (build_env spec) ≡ (
        if has_key k spec.secrets
        then some (secret_key_ref spec.name k)
        else Option.map plain (lookup k spec.env))
unfolding build_env
effective-build_env spec k =
    effective-append k (map (plain_var spec.env) (sorted_keys spec.env))
      (map (secret_var spec.name) (sorted_keys spec.secrets))
    ∙ ground (
      arith,
      effective-plain spec.env k (sorted_keys spec.env),
      effective-secret spec.name k (sorted_keys spec.secrets),
      any-sorted_keys k spec.env,
      any-sorted_keys k spec.secrets,
      lookup_missing k spec.env,
      lookup_present k spec.env,
    )
