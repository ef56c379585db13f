-- ===== src/Failure.antt =====
-- Go's `error` values as the program builds them: the sentinels of client/kubernetes.go and
-- provider/base.go, errors of other packages, and `fmt.Errorf` with one `%w`.
use Prim.Native.String.{◌++◌}
use managed_services_lib.Common.{ℕ, String, Bool, false, nat_eq, ◌≡◌, refl, ◌⊎◌, inl, inr}

pub data Sentinel : Type 0 where
  -- client/kubernetes.go
  resource_not_found resource_conflict resource_invalid kubernetes_request_failed : Sentinel
  -- provider/base.go
  service_not_found backup_not_found invalid_argument service_not_healthy : Sentinel
  namespace_not_found not_implemented conflict service_unavailable : Sentinel

abbrev index : Sentinel → ℕ
index resource_not_found = 0
index resource_conflict = 1
index resource_invalid = 2
index kubernetes_request_failed = 3
index service_not_found = 4
index backup_not_found = 5
index invalid_argument = 6
index service_not_healthy = 7
index namespace_not_found = 8
index not_implemented = 9
index conflict = 10
index service_unavailable = 11

-- Each sentinel is a pointer of its own.
abbrev pub same : Sentinel → Sentinel → Bool
same s t = nat_eq (index s) (index t)

-- The texts given to `errors.New`.
unfoldable pub text : Sentinel → String
text resource_not_found = "resource not found"
text resource_conflict = "resource conflict"
text resource_invalid = "resource invalid"
text kubernetes_request_failed = "kubernetes request failed"
text service_not_found = "service not found"
text backup_not_found = "backup not found"
text invalid_argument = "invalid argument"
text service_not_healthy = "service not healthy"
text namespace_not_found = "namespace not found"
text not_implemented = "not implemented"
text conflict = "conflict"
text service_unavailable = "service unavailable"

-- `wrapf before e after` is `fmt.Errorf("…%w…", e)`, with the text on both sides of the verb.
pub data Error : Type 0 where
  sentinel : Sentinel → Error
  foreign : String → Error
  wrapf : String → Error → String → Error

-- `err.Error()`
unfoldable pub message : Error → String
unfolding text
message (sentinel s) = text s
message (foreign m) = m
message (wrapf before e after) = before ++ message e ++ after

-- `errors.Is(err, target)` follows `Unwrap`; an error of another package is never a sentinel.
unfoldable pub is : Error → Sentinel → Bool
is (sentinel s) t = same s t
is (foreign m) t = false
is (wrapf before e after) t = is e t

-- A Go function's `(value, error)`: the value is meant only if the error is nil.
pub data Result {ℓ} (A : Type ℓ) : Type ℓ where
  ok : A → Result A
  err : Error → Result A

pub Result-cases {ℓ} :
    {A : Type ℓ} (r : Result A) → ((a : A) × (r ≡ ok a)) ⊎ ((e : Error) × (r ≡ err e))
Result-cases (ok a) = inl (a, refl)
Result-cases (err e) = inr (e, refl)
