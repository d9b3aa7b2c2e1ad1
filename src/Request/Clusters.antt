-- ===== src/Request/Clusters.antt =====
-- What NewRequestInfo says of clusters, scopes and the kubernetes API.
use bke_console_service.Prelude.{
  ◌≡◌, ◌≢◌, ◌↔◌, ◌⊎◌, refl, ap, ◌∙◌, Bool, true, false, List, [], ◌∷◌, ◌++◌, arith, if◌then◌else◌,
  Bool-cases, inl, inr, Option, none, some,
}
use bke_console_service.Constants.{
  karmada_namespace, karmada_api_server, multi_cluster_proxy_host, multi_cluster_proxy_scheme,
  multi_cluster_proxy_url,
}
use bke_console_service.Text.{Text, codes, text_eq, replace_first}
use bke_console_service.Text.Equality.{text_eq_iff}
use bke_console_service.Request.{
  K8sInfo, RequestInfo, GroupResource, Extracted, K8sFactory, ServiceLookup, set_single_cluster,
  is_multi_cluster_request, extract_cluster, check_k8s_request, is_listed, resolve_resource_scope,
  set_is_k8s_request, with_cluster, with_resource, with_k8s, fresh_info, new_request_info,
  set_cluster_proxy_url,
}

-- The fields that say to which cluster a request goes.
pub record ClusterPart : Type 0 where
  pub name : Text
  pub scheme : Text
  pub host : Text
  pub url : Text

abbrev pub cluster_part : RequestInfo → ClusterPart
cluster_part info = record {
  name = info.cluster_name;
  scheme = info.cluster_proxy_scheme;
  host = info.cluster_proxy_host;
  url = info.cluster_proxy_url;
}

-- A cluster without a proxy, which the empty name is too.
abbrev pub direct : Text → ClusterPart
direct name = record { name = name; scheme = []; host = []; url = [] }

-- A cluster behind karmada, with its name in the path of its proxy.
abbrev pub proxied : Text → ClusterPart
proxied name = record {
  name = name;
  scheme = multi_cluster_proxy_scheme;
  host = multi_cluster_proxy_host;
  url = codes "/apis/cluster.karmada.io/v1alpha1/clusters/" ++ name ++ codes "/proxy";
}

abbrev pub has_karmada : Option ServiceLookup → Bool
has_karmada none = false
has_karmada (some find) = find karmada_namespace karmada_api_server

-- Where a request is to go, by its path and by whether karmada is there.
abbrev pub destination : Bool → Extracted → ClusterPart
destination karmada e =
    if e.found
    then (if karmada then proxied e.cluster_name else direct e.cluster_name)
    else direct []

cluster_url :
    (name : Text)
    → replace_first (codes "{cluster}") name multi_cluster_proxy_url
      ≡ codes "/apis/cluster.karmada.io/v1alpha1/clusters/" ++ name ++ codes "/proxy"
unfolding replace_first
cluster_url name = refl

cluster_part-set_is_k8s_request :
    (info : RequestInfo) → cluster_part (set_is_k8s_request info) ≡ cluster_part info
unfolding set_is_k8s_request
cluster_part-set_is_k8s_request info = ground arith

cluster_part-with_k8s :
    (factory : K8sFactory) (global : List GroupResource) (method : Text) (info : RequestInfo)
    (checked : Bool × Text)
    → cluster_part (with_k8s factory global method info checked).info ≡ cluster_part info
unfolding with_k8s
cluster_part-with_k8s factory global method info (false, path) =
    cluster_part-set_is_k8s_request info
cluster_part-with_k8s factory global method info (true, path) =
    cluster_part-set_is_k8s_request (with_resource global (factory method path).0 info)

cluster_part-set_cluster_proxy_url :
    (client : Option ServiceLookup) (info : RequestInfo)
    → cluster_part (set_cluster_proxy_url client info)
      ≡ (if has_karmada client then proxied info.cluster_name else direct info.cluster_name)
unfolding set_cluster_proxy_url
cluster_part-set_cluster_proxy_url none info = refl
cluster_part-set_cluster_proxy_url (some find) info =
    elim (Bool-cases (find karmada_namespace karmada_api_server)) [
      | inl there ↦ rw there (
          ap
            (λ (u : Text). record {
              name = info.cluster_name;
              scheme = multi_cluster_proxy_scheme;
              host = multi_cluster_proxy_host;
              url = u;
            })
            (cluster_url info.cluster_name))
      | inr missing ↦ rw missing refl
    ]

cluster_part-with_cluster :
    (client : Option ServiceLookup) (e : Extracted) (method path : Text)
    → cluster_part (with_cluster client e (fresh_info method path))
      ≡ destination (has_karmada client) e
unfolding with_cluster
cluster_part-with_cluster client e method path = elim (Bool-cases e.found) [
  | inl found ↦ rw found (cluster_part-set_cluster_proxy_url client _)
  | inr missing ↦ rw missing refl
]

-- For every method and path the request goes to the cluster that its path names: through karmada
-- if the client finds the karmada API server, and with no proxy otherwise; a path that names no
-- cluster has no cluster and no proxy.
pub cluster_part-new_request_info :
    (factory : K8sFactory) (global : List GroupResource) (client : Option ServiceLookup)
    (method path : Text)
    → cluster_part (new_request_info factory global client method path).info
      ≡ destination (has_karmada client) (extract_cluster path)
unfolding new_request_info
cluster_part-new_request_info factory global client method path =
    cluster_part-with_k8s factory global method
      (with_cluster client (extract_cluster path) (fresh_info method path))
      (check_k8s_request
        (if (extract_cluster path).found then (extract_cluster path).pathname else path))
    ∙ cluster_part-with_cluster client (extract_cluster path) method path

-- A request counts as multi-cluster exactly if its path names a cluster and karmada is there.
pub is_multi_cluster_request_iff :
    (factory : K8sFactory) (global : List GroupResource) (client : Option ServiceLookup)
    (method path : Text)
    → (is_multi_cluster_request (new_request_info factory global client method path).info ≡ true)
      ↔ (((extract_cluster path).found ≡ true) × (has_karmada client ≡ true))
unfolding is_multi_cluster_request text_eq
is_multi_cluster_request_iff factory global client method path = ground (
  arith,
  ap (λ (c : ClusterPart). c.host)
      (cluster_part-new_request_info factory global client method path),
)

-- A request that is set to a single cluster is no multi-cluster request.
pub set_single_cluster-direct :
    (info : RequestInfo)
    → (cluster_part (set_single_cluster info) ≡ direct [])
      × (is_multi_cluster_request (set_single_cluster info) ≡ false)
unfolding set_single_cluster is_multi_cluster_request text_eq
set_single_cluster-direct info = (refl, refl)

-- Some listed resource has the group and the name.
abbrev pub IsListed : List GroupResource → Text → Text → Type 0
IsListed [] group resource = ⊥
IsListed (g ∷ gs) group resource =
    ((g.group ≡ group) × (g.resource ≡ resource)) ⊎ IsListed gs group resource

is_listed_iff :
    (global : List GroupResource) (group resource : Text)
    → (is_listed global group resource ≡ true) ↔ IsListed global group resource
unfolding is_listed
is_listed_iff [] group resource = ground arith
is_listed_iff (g ∷ gs) group resource = ground (
  arith,
  text_eq_iff g.group group,
  text_eq_iff g.resource resource,
  is_listed_iff gs group resource,
)

-- The scope of a resource: "Global" exactly if it is listed, else "Namespace" exactly if it has a
-- namespace, else "Cluster".
pub resolve_resource_scope_iff :
    (global : List GroupResource) (info : K8sInfo)
    → ((resolve_resource_scope global info ≡ codes "Global")
        ↔ IsListed global info.api_group info.resource)
      × ((resolve_resource_scope global info ≡ codes "Namespace")
          ↔ (¬ IsListed global info.api_group info.resource × (info.namespace ≢ [])))
      × ((resolve_resource_scope global info ≡ codes "Cluster")
          ↔ (¬ IsListed global info.api_group info.resource × (info.namespace ≡ [])))
unfolding resolve_resource_scope
resolve_resource_scope_iff global info =
    ground (arith, is_listed_iff global info.api_group info.resource, text_eq_iff info.namespace [])
