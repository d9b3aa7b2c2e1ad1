-- ===== src/Request.antt =====
-- pkg/server/request/requestinfo.go and IsMultiClusterRequest of pkg/utils/multiclusterutil:
-- what the filters know of a request. NewRequestInfo of k8s.io/apiserver is a parameter, and so is
-- the lookup of a service of the cluster.
pub mod Extraction
pub mod Clusters
pub mod Dispatch
use bke_console_service.Prelude.{
  zero, suc, ℕ, Bool, true, false, not, ◌&&◌, ◌||◌, List, [], ◌∷◌, ◌++◌, Option, none, some, ltb,
  leb, ◌==◌, if◌then◌else◌, length, drop,
}
use bke_console_service.Text.{
  Text, codes, text_eq, has_prefix, trim_prefix, trim_slash, split, join, replace_first,
}
use bke_console_service.Constants.{
  karmada_namespace, karmada_api_server, multi_cluster_proxy_host, multi_cluster_proxy_scheme,
  multi_cluster_proxy_url,
}

-- The fields of k8srequest.RequestInfo that the service reads.
pub record K8sInfo : Type 0 where
  pub path : Text
  pub verb : Text
  pub api_prefix : Text
  pub api_group : Text
  pub resource : Text
  pub namespace : Text

-- RequestInfo
pub record RequestInfo : Type 0 where
  pub k8s : K8sInfo
  pub is_k8s_request : Bool
  pub resource_scope : Text
  pub cluster_name : Text
  pub cluster_proxy_scheme : Text
  pub cluster_proxy_host : Text
  pub cluster_proxy_url : Text

-- schema.GroupResource
pub record GroupResource : Type 0 where
  pub group : Text
  pub resource : Text

-- SetSingleCluster
unfoldable pub set_single_cluster : RequestInfo → RequestInfo
set_single_cluster info = record info {
  cluster_name = [];
  cluster_proxy_host = [];
  cluster_proxy_url = [];
  cluster_proxy_scheme = [];
}

-- IsMultiClusterRequest
unfoldable pub is_multi_cluster_request : RequestInfo → Bool
unfolding text_eq
is_multi_cluster_request info = not (text_eq info.cluster_proxy_host [])

unfoldable pub split_trimmed : Text → List Text
unfolding split
split_trimmed [] = []
split_trimmed (c ∷ s) = split b'/' (c ∷ s)

-- splitPath
unfoldable pub split_path : Text → List Text
unfolding split_trimmed trim_slash
split_path uri_path = split_trimmed (trim_slash uri_path)

-- The result of extractCluster: cluster name, path to dispatch, and whether there is a cluster.
pub record Extracted : Type 0 where
  pub cluster_name : Text
  pub pathname : Text
  pub found : Bool

-- currentParts[i], which the source reads below the length only
unfoldable pub part_at : ℕ → List Text → Text
part_at i [] = []
part_at zero (part ∷ parts) = part
part_at (suc i) (part ∷ parts) = part_at i parts

-- What extractCluster does with the path and its parts.
unfoldable pub extract_from : Text → List Text → Extracted
unfolding join text_eq part_at
extract_from url_path parts =
    if ltb (length parts) 3
    then record { cluster_name = []; pathname = url_path; found = false }
    else if not (text_eq (part_at 0 parts) (codes "clusters"))
    then record { cluster_name = []; pathname = url_path; found = false }
    else record {
      cluster_name = if ltb 1 (length parts) then part_at 1 parts else [];
      pathname = b'/' ∷ join b'/' (if ltb 2 (length parts) then drop 2 parts else parts);
      found = true;
    }

-- extractCluster
unfoldable pub extract_cluster : Text → Extracted
unfolding extract_from split_path
extract_cluster url_path = extract_from url_path (split_path url_path)

-- checkK8sRequest: whether the path has the prefix of the kubernetes API, and the path without it
unfoldable pub check_k8s_request : Text → Bool × Text
unfolding has_prefix trim_prefix
check_k8s_request path =
    if has_prefix path (codes "/api/kubernetes")
    then (true, trim_prefix path (codes "/api/kubernetes"))
    else (false, path)

unfoldable pub is_listed : List GroupResource → Text → Text → Bool
unfolding text_eq
is_listed [] group resource = false
is_listed (g ∷ gs) group resource =
    let later = is_listed gs group resource in
    if text_eq g.group group && text_eq g.resource resource then true else later

-- resolveResourceScope
unfoldable pub resolve_resource_scope : List GroupResource → K8sInfo → Text
unfolding is_listed
resolve_resource_scope global info =
    if is_listed global info.api_group info.resource
    then codes "Global"
    else if not (text_eq info.namespace [])
    then codes "Namespace"
    else codes "Cluster"

unfoldable pub first_part : List Text → Text
first_part [] = []
first_part (part ∷ parts) = part

-- setIsK8sRequest
unfoldable pub set_is_k8s_request : RequestInfo → RequestInfo
unfolding text_eq split_path first_part
set_is_k8s_request info =
    let given = info.k8s.api_prefix in
    let prefix = if text_eq given [] then first_part (split_path info.k8s.path) else given in
    if text_eq prefix (codes "api") || text_eq prefix (codes "apis")
    then record info { is_k8s_request = true }
    else info

-- Looks up a service by namespace and name, and says whether that succeeds.
abbrev pub ServiceLookup : Type 0
ServiceLookup = Text → Text → Bool

abbrev pub no_cluster_proxy : RequestInfo → RequestInfo
no_cluster_proxy info = record info {
  cluster_proxy_host = [];
  cluster_proxy_url = [];
  cluster_proxy_scheme = [];
}

-- setClusterProxyURL; `none` is a nil client
unfoldable pub set_cluster_proxy_url : Option ServiceLookup → RequestInfo → RequestInfo
unfolding replace_first
set_cluster_proxy_url none info = no_cluster_proxy info
set_cluster_proxy_url (some find) info =
    if find karmada_namespace karmada_api_server
    then record info {
      cluster_proxy_host = multi_cluster_proxy_host;
      cluster_proxy_url =
          replace_first (codes "{cluster}") info.cluster_name multi_cluster_proxy_url;
      cluster_proxy_scheme = multi_cluster_proxy_scheme;
    }
    else no_cluster_proxy info

-- What a request's method and path give before the k8s part of the work.
abbrev pub fresh_info : Text → Text → RequestInfo
fresh_info method path = record {
  k8s = record {
    path = path;
    verb = method;
    api_prefix = [];
    api_group = [];
    resource = [];
    namespace = [];
  };
  is_k8s_request = false;
  resource_scope = [];
  cluster_name = [];
  cluster_proxy_scheme = [];
  cluster_proxy_host = [];
  cluster_proxy_url = [];
}

-- The result of NewRequestInfo, with the path that the request goes on with.
pub record Resolved : Type 0 where
  pub info : RequestInfo
  pub path : Text
  pub error : Option Text

-- NewRequestInfo of k8s.io/apiserver, on a method and a path
abbrev pub K8sFactory : Type 0
K8sFactory = Text → Text → K8sInfo × Option Text

unfoldable pub with_cluster : Option ServiceLookup → Extracted → RequestInfo → RequestInfo
unfolding set_cluster_proxy_url
with_cluster client e info =
    if e.found
    then set_cluster_proxy_url client (record info { cluster_name = e.cluster_name })
    else info

unfoldable pub with_resource : List GroupResource → K8sInfo → RequestInfo → RequestInfo
unfolding resolve_resource_scope
with_resource global k8s info = record info {
  k8s = k8s;
  resource_scope = resolve_resource_scope global k8s;
}

unfoldable pub with_k8s :
    K8sFactory → List GroupResource → Text → RequestInfo → Bool × Text → Resolved
unfolding with_resource set_is_k8s_request
with_k8s factory global method info (false, path) = record {
  info = set_is_k8s_request info;
  path = path;
  error = none;
}
with_k8s factory global method info (true, path) =
    let (k8s, error) = factory method path in
    record { info = set_is_k8s_request (with_resource global k8s info); path = path; error = error }

-- NewRequestInfo
unfoldable pub new_request_info :
    K8sFactory → List GroupResource → Option ServiceLookup → Text → Text → Resolved
unfolding extract_cluster check_k8s_request with_cluster with_k8s
new_request_info factory global client method path =
    let e = extract_cluster path in
    with_k8s factory global method (with_cluster client e (fresh_info method path))
      (check_k8s_request (if e.found then e.pathname else path))
