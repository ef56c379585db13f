-- ===== src/Client/Kubernetes.antt =====
-- client/kubernetes.go: `kubernetesClientImpl`, `toGVR` and `wrapK8sError`.
use managed_services_lib.Common.{
  ℕ, String, Bool, true, false, ◌||◌, Option, none, some, List, [], ◌∷◌, ◌==◌, if◌then◌else◌,
}
use Prim.Native.String.{◌++◌}
use managed_services_lib.Model.Kubernetes.{
  ApiResource, ResourceRef, ListOptions, K8sPatch, unsupported,
}
use managed_services_lib.Failure.{
  Error, Result, ok, err, sentinel, foreign, wrapf, resource_not_found, resource_conflict,
  resource_invalid, kubernetes_request_failed,
}
use managed_services_lib.Client.Types.{Secret, Pod, Job}
use managed_services_lib.Client.Api.{
  Action, KubernetesClient, ApiErrors, ApiServer, Reply, done, fail, GroupVersionResource,
}

unfoldable pub to_gvr : ApiResource → GroupVersionResource
to_gvr api = record { group = api.group; version = api.version; resource = api.plural }

-- `.Namespace(ns)` is called unless `ns` is empty.
abbrev pub in_namespace : String → Option String
in_namespace ns = if ns == "" then none else some ns

-- `json.Marshal(patches)` fails on a value of a type that has no JSON.
marshals : List K8sPatch → Bool
marshals [] = true
marshals (p ∷ ps) = elim p.value [ unsupported ↦ false | _ ↦ marshals ps ]

module _ {E : Type 0} (errors : ApiErrors E) where
  unfoldable pub wrap_k8s_error : E → Error
  wrap_k8s_error e =
      if errors.is_not_found e
      then wrapf "" (sentinel resource_not_found) (": " ++ errors.error e)
      else if errors.is_already_exists e || errors.is_conflict e
      then wrapf "" (sentinel resource_conflict) (": " ++ errors.error e)
      else if errors.is_invalid e
      then wrapf "" (sentinel resource_invalid) (": " ++ errors.error e)
      else wrapf "" (sentinel kubernetes_request_failed) (": " ++ errors.error e)

  -- `wrapK8sError(err)` of a call that returns only an error: nil stays nil.
  abbrev wrapped : {S : Type 0} → Option E × S → Option Error × S
  wrapped (none, s) = (none, s)
  wrapped (some e, s) = (some (wrap_k8s_error e), s)

  -- `if err != nil { return nil, wrapK8sError(err) }; return result, nil`
  abbrev checked : {S A : Type 0} → Reply E A × S → Result A × S
  checked (done a, s) = (ok a, s)
  checked (fail e, s) = (err (wrap_k8s_error e), s)

  module _ {S U : Type 0} (server : ApiServer S U E) where
    create : ApiResource → String → U → Action S (Result U)
    create api ns obj s = checked (server.create (to_gvr api) (in_namespace ns) obj s)

    get : ResourceRef → Action S (Result U)
    get ref s =
        checked (server.get (to_gvr ref.api_resource) (in_namespace ref.namespace) ref.name s)

    list : ListOptions → Action S (Result (List U))
    list opts s = checked (
        server.list (to_gvr opts.api_resource) (in_namespace opts.namespace) opts.label_selector
          opts.field_selector s)

    get_job : String → String → Action S (Result Job)
    get_job ns name s = checked (server.get_job ns name s)

    list_pods : String → String → Action S (Result (List Pod))
    list_pods ns selector s = checked (server.list_pods ns selector s)

    patch : ResourceRef → List K8sPatch → Action S (Option Error)
    unfolding marshals
    patch ref patches s =
        if marshals patches
        then wrapped
            (server.patch (to_gvr ref.api_resource) (in_namespace ref.namespace) ref.name patches s)
        else (some (wrapf "failed to marshal patches: " (foreign "json: unsupported type") ""), s)

    delete : ResourceRef → Action S (Option Error)
    delete ref s =
        wrapped (server.delete (to_gvr ref.api_resource) (in_namespace ref.namespace) ref.name s)

    get_pod_logs : String → String → String → ℕ → Action S (Result String)
    get_pod_logs ns pod container tail s = checked (server.get_logs ns pod container tail s)

    create_secret : String → Secret → Action S (Result Secret)
    create_secret ns secret s = checked (server.create_secret ns secret s)

    get_secret : String → String → Action S (Result Secret)
    get_secret ns name s = checked (server.get_secret ns name s)

    delete_secret : String → String → Action S (Option Error)
    delete_secret ns name s = wrapped (server.delete_secret ns name s)

    -- `kubernetesClientImpl` implements `KubernetesClient`.
    unfoldable pub kubernetes_client_impl : KubernetesClient S U
    unfolding wrap_k8s_error create get list get_job list_pods patch delete get_pod_logs
        create_secret get_secret delete_secret to_gvr
    kubernetes_client_impl = record {
      create = create;
      get = get;
      list = list;
      get_job = get_job;
      list_pods = list_pods;
      patch = patch;
      delete = delete;
      get_pod_logs = get_pod_logs;
      create_secret = create_secret;
      get_secret = get_secret;
      delete_secret = delete_secret;
    }
