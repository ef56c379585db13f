-- ===== src/Routes/Errors/Answers.antt =====
-- provider/routes.go: what `HandleError` answers, and what it never tells.
use managed_services_lib.Common.{
  ℕ, ◌≤◌, ◌<◌, String, ◌≡◌, refl, Bool, false, ◌||◌, List, [], ◌∷◌, arith, if◌then◌else◌,
}
use managed_services_lib.Failure.{
  Error, is, message, wrapf, Sentinel, resource_not_found, resource_conflict, resource_invalid,
  kubernetes_request_failed, service_not_found, backup_not_found, invalid_argument,
  service_not_healthy, namespace_not_found, not_implemented, conflict, service_unavailable,
}
use managed_services_lib.Client.Api.{ApiErrors}
use managed_services_lib.Client.Kubernetes.{wrap_k8s_error}
use managed_services_lib.Routes.Errors.{answer}

-- `fmt.Errorf("<before>%w<after>", err)` again and again, the first one last.
abbrev pub wrap_all : List (String × String) → Error → Error
wrap_all [] e = e
wrap_all ((before, after) ∷ ws) e = wrapf before (wrap_all ws e) after

-- The errors that a provider words for its users.
abbrev pub is_domain : Error → Bool
is_domain e =
    is e service_not_found
    || is e backup_not_found
    || is e invalid_argument
    || is e service_not_healthy
    || is e namespace_not_found
    || is e conflict
    || is e service_unavailable
    || is e not_implemented

-- Two errors of the same class.
abbrev pub SameClass : Error → Error → Type 0
SameClass e f = (t : Sentinel) → is e t ≡ is f t

-- Every error is answered with a 4xx or 5xx status, which depends on the class of the error alone. A
-- domain error passes its message on; the text for any other depends on its class alone, so that a
-- client cannot tell two such errors of one class apart.
pub answer_safe :
    (e f : Error)
    → SameClass e f
    → (400 ≤ (answer e).code)
      × ((answer e).code < 600)
      × ((answer e).code ≡ (answer f).code)
      × ((answer e).text ≡ (if is_domain e then message e else (answer f).text))
unfolding answer
answer_safe e f same = ground (
  arith,
  same service_not_found,
  same backup_not_found,
  same invalid_argument,
  same service_not_healthy,
  same namespace_not_found,
  same conflict,
  same service_unavailable,
  same not_implemented,
  same resource_not_found,
  same resource_conflict,
  same resource_invalid,
  same kubernetes_request_failed,
)

-- The texts of the answers to Kubernetes errors, and the log level, by class.
abbrev pub infrastructure_answer : {E : Type 0} → ApiErrors E → E → ℕ × String
infrastructure_answer errors e =
    if errors.is_not_found e
    then (404, "resource not found")
    else if errors.is_already_exists e || errors.is_conflict e
    then (409, "resource already exists")
    else if errors.is_invalid e
    then (422, "resource invalid")
    else (502, "upstream service error")

pub wrap_all-SameClass : (ws : List (String × String)) (e : Error) → SameClass (wrap_all ws e) e
unfolding is
wrap_all-SameClass [] e t = refl
wrap_all-SameClass ((before, after) ∷ ws) e t = wrap_all-SameClass ws e t

pub is_domain-SameClass : (e f : Error) → SameClass e f → is_domain e ≡ is_domain f
is_domain-SameClass e f same = rw (
  same service_not_found,
  same backup_not_found,
  same invalid_argument,
  same service_not_healthy,
  same namespace_not_found,
  same conflict,
  same service_unavailable,
  same not_implemented,
)

pub answer_unwrapped :
    {E : Type 0} (errors : ApiErrors E) (e : E)
    → (is_domain (wrap_k8s_error errors e) ≡ false)
      × ((answer (wrap_k8s_error errors e)).code ≡ (infrastructure_answer errors e).0)
      × ((answer (wrap_k8s_error errors e)).text ≡ (infrastructure_answer errors e).1)
unfolding answer is wrap_k8s_error
answer_unwrapped errors e = ground arith

-- An error of the Kubernetes API that reaches `HandleError`, wrapped by the client and then by any
-- number of callers in between, is answered by the status of its kind and a fixed text: nothing of
-- its message, nor of the callers' words, reaches the response.
pub answer-wrap_k8s_error :
    {E : Type 0} (errors : ApiErrors E) (e : E) (wrappers : List (String × String))
    → ((answer (wrap_all wrappers (wrap_k8s_error errors e))).code
        ≡ (infrastructure_answer errors e).0)
      × ((answer (wrap_all wrappers (wrap_k8s_error errors e))).text
          ≡ (infrastructure_answer errors e).1)
answer-wrap_k8s_error errors e wrappers = ground (
  arith,
  answer_safe (wrap_all wrappers (wrap_k8s_error errors e)) (wrap_k8s_error errors e)
      (wrap_all-SameClass wrappers (wrap_k8s_error errors e)),
  answer_unwrapped errors e,
  is_domain-SameClass (wrap_all wrappers (wrap_k8s_error errors e)) (wrap_k8s_error errors e)
      (wrap_all-SameClass wrappers (wrap_k8s_error errors e)),
)
