-- ===== src/Provider/Base/Paused.antt =====
-- provider/base.go: a replica count that is stored in an annotation when a service is paused, and read
-- back by `StoredReplicas` when it goes on.
use Prim.Native.String as Text
use managed_services_lib.Common.{String, ◌≡◌, ◌⊎◌, inl, inr, true, none, some, List, [], ◌∷◌, arith}
use managed_services_lib.Common.Int.{ℤ}
use managed_services_lib.Common.StringMap.{StringMap, put}
use managed_services_lib.Common.Decimal.{show_int}
use managed_services_lib.Common.Decimal.RoundTrip.{IsInt64}
use managed_services_lib.Failure.{Error, ok, err, Result-cases}
use managed_services_lib.Model.Kubernetes.{ResourceRef, K8sPatch, json}
use managed_services_lib.Client.Api.{KubernetesClient, Objects}
use managed_services_lib.Provider.Base.{stored_replicas, escape_json_pointer}
use managed_services_lib.Provider.Base.Pointer.{unescape, lacks_slash, unescape-escape_json_pointer}
use managed_services_lib.Provider.Base.Names.{replicas_from_annotation-put}

-- The patch that sets an annotation, whose key is one token of the path, to a text that JSON writes
-- as it stands.
abbrev pub annotate : String → String → List K8sPatch
annotate token value =
    record {
      op = "add";
      path = Text.◌++◌ "/metadata/annotations/" token;
      value = json (Text.◌++◌ "\"" (Text.◌++◌ value "\""));
    }
    ∷ []

module _ {S U : Type 0} (objects : Objects U) (kube : KubernetesClient S U) where
  -- JSON Patch (RFC 6902) with the pointers of RFC 6901: after the patch the object has the value under
  -- the key that the token stands for, beside some other annotations.
  pub record IsPatching (ref : ResourceRef) (key value : String) : Type 0 where
    pub annotated :
        (token : String) (s : S) (obj : U)
        → unescape token ≡ some key
        → lacks_slash token ≡ true
        → (kube.patch ref (annotate token value) s).0 ≡ none
        → (kube.get ref (kube.patch ref (annotate token value) s).1).0 ≡ ok obj
        → (others : StringMap String) × (objects.get_annotations obj ≡ put key value others)

  -- A replica count survives a pause: if the patch that stores it under an annotation, with the key
  -- escaped by `EscapeJSONPointer`, is applied, then `StoredReplicas` reads that count, and not the
  -- default, for any key and any `int64`; it fails only if the object cannot be read.
  pub stored_replicas-annotate :
      (ref : ResourceRef) (key : String) (n : ℤ) (s : S)
      → IsPatching ref key (show_int n)
      → IsInt64 n
      → (kube.patch ref (annotate (escape_json_pointer key) (show_int n)) s).0 ≡ none
      → ((stored_replicas objects kube ref key
            (kube.patch ref (annotate (escape_json_pointer key) (show_int n)) s).1).0
          ≡ ok n)
        ⊎ ((e : Error) × ((kube.get ref
                (kube.patch ref (annotate (escape_json_pointer key) (show_int n)) s).1).0
              ≡ err e))
  unfolding stored_replicas
  stored_replicas-annotate ref key n s patching bounded done =
      let t : S = (kube.patch ref (annotate (escape_json_pointer key) (show_int n)) s).1 in
      elim (Result-cases (kube.get ref t).0) [
        | inl (obj, e) ↦
            let (back, clean) = unescape-escape_json_pointer key in
            let (others, same) =
              patching.annotated (escape_json_pointer key) s obj back clean done e in
            inl (ground (arith, e, same, replicas_from_annotation-put others key n bounded))
        | inr failed ↦ inr failed
      ]
