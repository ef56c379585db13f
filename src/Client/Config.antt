-- ===== src/Client/Config.antt =====
-- client/kubernetes.go: `NewRESTConfig`, `NewKubernetesClient` and `NewKubernetesClientFromConfig`. The
-- functions of client-go that they call are the record `ClientGo`: `C` is `rest.Config`, `K` the
-- clientset, `D` the dynamic client.
use managed_services_lib.Common.{String, not, ◌==◌, if◌then◌else◌}
use managed_services_lib.Failure.{Result, ok, err, wrapf}
use managed_services_lib.Client.Api.{Action}

pub record ClientGo (S C K D : Type 0) : Type 0 where
  -- `clientcmd.BuildConfigFromFlags("", path)`
  pub build_config_from_flags : String → Action S (Result C)
  -- the default loading rules: `KUBECONFIG`, then `~/.kube/config`
  pub default_client_config : Action S (Result C)
  pub in_cluster_config : Action S (Result C)
  -- `config.Wrap` with the instrumented transport
  pub wrap : C → C
  pub new_clientset : C → Action S (Result K)
  pub new_dynamic : C → Action S (Result D)

pub record KubernetesClientImpl (K D : Type 0) : Type 0 where
  pub clientset : K
  pub dynamic_client : D

module _ {S C K D : Type 0} (client_go : ClientGo S C K D) where
  abbrev fall_back : Result C × S → Result C × S
  fall_back (ok config, s) = (ok config, s)
  fall_back (err e, s) = client_go.in_cluster_config s

  abbrev load_config : String → Action S (Result C)
  load_config kubeconfig s =
      if not (kubeconfig == "")
      then client_go.build_config_from_flags kubeconfig s
      else fall_back (client_go.default_client_config s)

  unfoldable pub new_rest_config : String → Action S (Result C)
  new_rest_config kubeconfig s =
      let (r, s') = load_config kubeconfig s in
      elim r [
        | err e ↦ (err (wrapf "failed to create kubernetes config: " e ""), s')
        | ok config ↦ (ok (client_go.wrap config), s')
      ]

  unfoldable pub new_kubernetes_client_from_config :
      C → Action S (Result (KubernetesClientImpl K D))
  new_kubernetes_client_from_config config s =
      let (r, s') = client_go.new_clientset config s in
      elim r [
        | err e ↦ (err (wrapf "failed to create kubernetes clientset: " e ""), s')
        | ok clientset ↦
            (let (q, s'') = client_go.new_dynamic config s' in
              elim q [
                | err e ↦ (err (wrapf "failed to create dynamic client: " e ""), s'')
                | ok dynamic ↦
                    (ok (record { clientset = clientset; dynamic_client = dynamic }), s'')
              ])
      ]

  unfoldable pub new_kubernetes_client : String → Action S (Result (KubernetesClientImpl K D))
  unfolding new_rest_config new_kubernetes_client_from_config
  new_kubernetes_client kubeconfig s =
      let (r, s') = new_rest_config kubeconfig s in
      elim r [ err e ↦ (err e, s') | ok config ↦ new_kubernetes_client_from_config config s' ]
