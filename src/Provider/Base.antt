-- ===== src/Provider/Base.antt =====
-- provider/base.go: the helpers that providers embed, and the pure functions beside them. The
-- methods take the client of the `Base`, `base.k8s_client`. Its logger, which no method uses, is
-- left out.
pub mod Pointer
pub mod Names
pub mod Paused
pub mod Discovery
use Prim.Native.String as Text
use managed_services_lib.Common.{
  ℕ, zero, suc, ◌*◌, ◌/◌, ◌^◌, String, code, Bool, not, ◌&&◌, Option, none, some, List, [], ◌∷◌,
  ◌==◌, nat_eq, if◌then◌else◌,
}
use managed_services_lib.Common.Decimal.{atoi, show_int}
use managed_services_lib.Common.Int.{ℤ, pos, negsuc}
use managed_services_lib.Common.StringMap.{StringMap, lookup}
use managed_services_lib.Model.Kubernetes.{
  ApiResource, ResourceRef, ListOptions, provider_label, service_id_label,
}
use managed_services_lib.Failure.{
  Error, Result, ok, err, is, wrapf, sentinel, resource_not_found, service_not_found,
}
use managed_services_lib.Client.Types.{Secret}
use managed_services_lib.Client.Api.{Action, KubernetesClient, Objects}
use managed_services_lib.JobRunner.Dispatch.{JobRunner, new_job_runner}

pub record Base (S U : Type 0) : Type 0 where
  pub k8s_client : KubernetesClient S U
  pub jobs : JobRunner S U

abbrev pub new_base : {S U : Type 0} → KubernetesClient S U → Base S U
new_base k8s_client = record { k8s_client = k8s_client; jobs = new_job_runner k8s_client }

abbrev pub default_paused_replicas : ℤ
default_paused_replicas = pos 1

unfoldable pub namespace_for_team : ℤ → String
namespace_for_team team_id = Text.◌++◌ "rg-" (show_int team_id)

unfoldable pub replicas_from_annotation : StringMap String → String → ℤ
replicas_from_annotation annotations key = elim (lookup key annotations) [
  | none ↦ default_paused_replicas
  | some text ↦ (elim (atoi text) [ none ↦ default_paused_replicas | some n ↦ n ])
]

-- `strings.ReplaceAll(s, old, new)` for an `old` of one ASCII character.
unfoldable pub replace_all : ℕ → String → String → String
replace_all old new String.[] = String.[]
replace_all old new (String.◌∷◌ c s) =
    if nat_eq (code c) old
    then Text.◌++◌ new (replace_all old new s)
    else String.◌∷◌ c (replace_all old new s)

unfoldable pub escape_json_pointer : String → String
unfolding replace_all
escape_json_pointer s = replace_all b'/' "~1" (replace_all b'~' "~0" s)

-- Go's division of an `int64` by a positive number rounds towards zero.
abbrev quotient : ℤ → ℕ → ℤ
quotient (pos n) d = pos (n / d)
quotient (negsuc n) d = elim (suc n / d) [ zero ↦ pos 0 | suc q ↦ negsuc q ]

-- `resource.ParseQuantity` and `Quantity.Value`, of k8s.io/apimachinery, are the parameter.
unfoldable pub parse_size_mib : (String → Option ℤ) → String → ℤ
parse_size_mib quantity s =
    if s == ""
    then pos 0
    else elim (quantity s) [ none ↦ pos 0 | some v ↦ quotient v (1024 * 1024) ]

unfoldable pub build_secret : String → String → StringMap (List ℕ) → StringMap String → Secret
build_secret ns name data_map labels = record {
  name = name;
  namespace = ns;
  labels = labels;
  type = "";
  string_data = [];
  binary_data = data_map;
}

unfoldable pub get_resource_ref : ApiResource → String → String → ResourceRef
get_resource_ref api name ns = record { api_resource = api; name = name; namespace = ns }

abbrev everywhere : ApiResource → String → ListOptions
everywhere api selector = record {
  api_resource = api;
  namespace = "";
  label_selector = selector;
  field_selector = "";
}

-- "<provider label>=<type>,<id label>=<id>"
unfoldable pub service_selector : String → String → String
service_selector provider_type id = Text.◌++◌ provider_label (
    Text.◌++◌ "="
      (Text.◌++◌ provider_type (Text.◌++◌ "," (Text.◌++◌ service_id_label (Text.◌++◌ "=" id)))))

module _ {S U : Type 0} (objects : Objects U) (kube : KubernetesClient S U) where
  abbrev pub first_namespace : String → List U → Result String
  first_namespace id [] = err (wrapf "" (sentinel service_not_found) (Text.◌++◌ ": " id))
  first_namespace id (item ∷ items) = ok (objects.get_namespace item)

  unfoldable pub find_service_namespace : ApiResource → String → String → Action S (Result String)
  unfolding service_selector
  find_service_namespace api provider_type id s =
      let (r, s') = kube.list (everywhere api (service_selector provider_type id)) s in
      elim r [
        | ok items ↦ (first_namespace id items, s')
        | err e ↦ (err (wrapf (Text.◌++◌ "failed to find service " (Text.◌++◌ id ": ")) e ""), s')
      ]

  unfoldable pub create_secret :
      String → String → StringMap (List ℕ) → StringMap String → Action S (Option Error)
  unfolding build_secret
  create_secret ns name data_map labels s =
      let (r, s') = kube.create_secret ns (build_secret ns name data_map labels) s in
      elim r [
        | ok _ ↦ (none, s')
        | err e ↦
            (some (wrapf (Text.◌++◌ "failed to create secret " (Text.◌++◌ name ": ")) e ""), s')
      ]

  unfoldable pub delete_secret : String → String → Action S (Option Error)
  delete_secret ns name s =
      let (r, s') = kube.delete_secret ns name s in
      elim r [
        | none ↦ (none, s')
        | some e ↦
            if not (is e resource_not_found)
            then (
              some (wrapf (Text.◌++◌ "failed to delete secret " (Text.◌++◌ name ": ")) e ""),
              s',
            )
            else (none, s')
      ]

  -- The loop of `ListByLabel`: items with no labels, or without an id, are passed over.
  unfoldable pub service_ids : List U → List String
  service_ids [] = []
  service_ids (item ∷ items) = elim (objects.get_labels item) [
    | none ↦ service_ids items
    | some labels ↦ (elim (lookup service_id_label labels) [
      | none ↦ service_ids items
      | some id ↦ id ∷ service_ids items
    ])
  ]

  unfoldable pub list_by_label : ApiResource → String → Action S (Result (List String))
  unfolding service_ids
  list_by_label api selector s =
      let (r, s') = kube.list (everywhere api selector) s in
      elim r [
        | ok items ↦ (ok (service_ids items), s')
        | err e ↦ (err (wrapf "failed to list resources: " e ""), s')
      ]

  unfoldable pub stored_replicas : ResourceRef → String → Action S (Result ℤ)
  stored_replicas ref key s =
      let (r, s') = kube.get ref s in
      elim r [
        | ok obj ↦ (ok (replicas_from_annotation (objects.get_annotations obj) key), s')
        | err e ↦ (err e, s')
      ]
