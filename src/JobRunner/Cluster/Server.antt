-- ===== src/JobRunner/Cluster/Server.antt =====
-- client/kubernetes.go behind client/jobrunner.go: the client over an API server is a cluster as the
-- job runner asks for.
use managed_services_lib.Common.{
  String, ◌≡◌, ◌≢◌, ◌↔◌, refl, ◌⊎◌, inl, inr, true, false, none, some, List, arith, eq_iff,
  Option-cases,
}
use managed_services_lib.Model.Kubernetes.{K8sPatch, job_api}
use managed_services_lib.Failure.{Error, ok, err, is, resource_conflict, resource_not_found}
use managed_services_lib.Client.Types.{Secret}
use managed_services_lib.Client.Api.{
  KubernetesClient, Objects, ApiErrors, ApiServer, Reply, done, fail,
}
use managed_services_lib.Client.Kubernetes.{
  to_gvr, in_namespace, wrap_k8s_error, kubernetes_client_impl,
}
use managed_services_lib.JobRunner.Cluster.Api.{space, IsServer, ConflictsMeanTaken}
use managed_services_lib.JobRunner.Cluster.{ClusterView, IsCluster}
use managed_services_lib.JobRunner.Dispatch.{secret_ref}

pub Reply-cases :
    {E A : Type 0} (r : Reply E A) → ((a : A) × (r ≡ done a)) ⊎ ((e : E) × (r ≡ fail e))
Reply-cases (done a) = inl (a, refl)
Reply-cases (fail e) = inr (e, refl)

space-in_namespace : (ns : String) → space (in_namespace ns) ≡ ns
space-in_namespace ns = ground (arith, eq_iff ns "")

module _ {E : Type 0} (errors : ApiErrors E) where
  -- The two kinds of client error that the job runner looks for.
  is_conflict-wrap :
      (e : E)
      → (is (wrap_k8s_error errors e) resource_conflict ≡ true) ↔ (
          (errors.is_not_found e ≡ false)
          × ((errors.is_already_exists e ≡ true) ⊎ (errors.is_conflict e ≡ true)))
  unfolding is wrap_k8s_error
  is_conflict-wrap e = ground arith

  is_not_found-wrap :
      (e : E)
      → is (wrap_k8s_error errors e) resource_not_found ≡ true
      → errors.is_not_found e ≡ true
  unfolding is wrap_k8s_error
  is_not_found-wrap e h = ground arith

module _ {S U E : Type 0} (objects : Objects U) (errors : ApiErrors E) (server : ApiServer S U E)
    (v : ClusterView S U) (w : IsServer objects errors server v) where
  abbrev client : KubernetesClient S U
  client = kubernetes_client_impl errors server

  -- The replies to the calls that make a Job and make and delete a Secret.
  job_reply : String → U → S → Reply E U
  job_reply ns u s = (server.create (to_gvr job_api) (in_namespace ns) u s).0

  job_created :
      (ns : String) (u r : U) (s : S)
      → (client.create job_api ns u s).0 ≡ ok r
      → (v.has_job s ns (v.name_of u) ≡ false)
        × (v.has_job (client.create job_api ns u s).1 ns (v.name_of u) ≡ true)
  unfolding kubernetes_client_impl job_reply
  job_created ns u r s h = elim (Reply-cases (job_reply ns u s)) [
    | inl (a, e) ↦ ground (arith, space-in_namespace ns, w.job_created (in_namespace ns) u a s)
    | inr (f, e) ↦ ground (arith, e)
  ]

  job_created_secret :
      (ns : String) (u r : U) (s : S) (name : String)
      → (client.create job_api ns u s).0 ≡ ok r
      → v.secret (client.create job_api ns u s).1 ns name ≡ v.secret s ns name
  unfolding kubernetes_client_impl job_reply
  job_created_secret ns u r s name h = elim (Reply-cases (job_reply ns u s)) [
    | inl (a, e) ↦
        ground (arith, space-in_namespace ns, w.job_created_secret (in_namespace ns) u a s name)
    | inr (f, e) ↦ ground (arith, e)
  ]

  job_conflict :
      (m : ConflictsMeanTaken errors server v) (ns : String) (u : U) (e : Error) (s : S)
      → (client.create job_api ns u s).0 ≡ err e
      → is e resource_conflict ≡ true
      → ((client.create job_api ns u s).1 ≡ s) × (v.has_job s ns (v.name_of u) ≡ true)
  unfolding kubernetes_client_impl job_reply
  job_conflict m ns u x s h k = elim (Reply-cases (job_reply ns u s)) [
    | inl (a, e) ↦ ground (arith, e)
    | inr (f, e) ↦ ground (
      arith,
      space-in_namespace ns,
      w.job_exists (in_namespace ns) u f s,
      m.job_conflict ns u f s,
      is_conflict-wrap errors f,
    )
  ]

  secret_created :
      (ns : String) (secret r : Secret) (s : S)
      → (client.create_secret ns secret s).0 ≡ ok r
      → (v.secret s ns secret.name ≡ none)
        × (v.secret (client.create_secret ns secret s).1 ns secret.name ≡ some secret.string_data)
  unfolding kubernetes_client_impl
  secret_created ns secret r s h = elim (Reply-cases (server.create_secret ns secret s).0) [
    | inl (a, e) ↦ ground (arith, w.secret_created ns secret a s)
    | inr (f, e) ↦ ground (arith, e)
  ]

  secret_conflict :
      (m : ConflictsMeanTaken errors server v) (ns : String) (secret : Secret) (e : Error) (s : S)
      → (client.create_secret ns secret s).0 ≡ err e
      → is e resource_conflict ≡ true
      → ((client.create_secret ns secret s).1 ≡ s) × (v.secret s ns secret.name ≢ none)
  unfolding kubernetes_client_impl
  secret_conflict m ns secret x s h k = elim (Reply-cases (server.create_secret ns secret s).0) [
    | inl (a, e) ↦ ground (arith, e)
    | inr (f, e) ↦ ground (
      arith,
      w.secret_exists ns secret f s,
      m.secret_conflict ns secret f s,
      is_conflict-wrap errors f,
    )
  ]

  secret_patched :
      (ns name : String) (patches : List K8sPatch) (s : S)
      → (v.has_job (client.patch (secret_ref ns name) patches s).1 ns name ≡ v.has_job s ns name)
        × (v.secret (client.patch (secret_ref ns name) patches s).1 ns name ≡ v.secret s ns name)
  unfolding kubernetes_client_impl
  secret_patched ns name patches s =
      ground (arith, space-in_namespace ns, w.secret_patched (in_namespace ns) name patches s)

  secret_deleted :
      (ns name : String) (s : S)
      → (client.delete_secret ns name s).0 ≡ none
      → v.secret (client.delete_secret ns name s).1 ns name ≡ none
  unfolding kubernetes_client_impl
  secret_deleted ns name s h = ground (arith, w.secret_deleted ns name s)

  secret_missing :
      (ns name : String) (e : Error) (s : S)
      → (client.delete_secret ns name s).0 ≡ some e
      → is e resource_not_found ≡ true
      → v.secret (client.delete_secret ns name s).1 ns name ≡ none
  unfolding kubernetes_client_impl
  secret_missing ns name x s h k = elim (Option-cases (server.delete_secret ns name s).0) [
    | inl e ↦ ground (arith, e)
    | inr (f, e) ↦ ground (arith, w.secret_missing ns name f s, is_not_found-wrap errors f)
  ]

  client-IsCluster : ConflictsMeanTaken errors server v → IsCluster objects client v
  client-IsCluster m = record {
    converted_name = w.converted_name;
    job_created = job_created;
    job_created_secret = job_created_secret;
    job_conflict = job_conflict m;
    secret_created = secret_created;
    secret_conflict = secret_conflict m;
    secret_patched = secret_patched;
    secret_deleted = secret_deleted;
    secret_missing = secret_missing;
  }

  -- A Conflict of the server is a conflict of the client.
  client-ConflictsMeanTaken : IsCluster objects client v → ConflictsMeanTaken errors server v
  unfolding kubernetes_client_impl
  client-ConflictsMeanTaken c = record {
    job_conflict = λ ns u e s refused found conflict. ground (
      arith,
      refused,
      found,
      conflict,
      is_conflict-wrap errors e,
      c.job_conflict ns u (wrap_k8s_error errors e) s,
    );
    secret_conflict = λ ns secret e s refused found conflict. ground (
      arith,
      refused,
      found,
      conflict,
      is_conflict-wrap errors e,
      c.secret_conflict ns secret (wrap_k8s_error errors e) s,
    );
  }

  -- The client over an API server with the documented behaviour is a cluster as the job runner asks
  -- for, if and only if the server answers 409 Conflict to the creation of a Job or Secret only where
  -- the name is taken and nothing changes: this is all that the client needs beyond the documented
  -- behaviour, and because it does not tell Conflict from AlreadyExists, it does need it.
  pub kubernetes_client_impl-IsCluster_iff :
      IsCluster objects (kubernetes_client_impl errors server) v
      ↔ ConflictsMeanTaken errors server v
  kubernetes_client_impl-IsCluster_iff = (client-ConflictsMeanTaken, client-IsCluster)
