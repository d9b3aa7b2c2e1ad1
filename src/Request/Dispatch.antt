-- ===== src/Request/Dispatch.antt =====
-- NewRequestInfo of pkg/server/request/requestinfo.go on paths that are written with one slash
-- before each part: where the request goes, and with which path.
use bke_console_service.Prelude.{
  ◌≡◌, refl, ap, ◌∙◌, Bool, ℕ, List, [], ◌∷◌, All, Option, none, some, arith, inl, inr, Bool-cases,
  if◌then◌else◌,
}
use bke_console_service.Text.{Text, codes, text_eq, join, has_prefix, trim_prefix}
use bke_console_service.Text.Split.{Lacks}
use bke_console_service.Request.{
  Extracted, GroupResource, K8sFactory, ServiceLookup, RequestInfo, extract_from, extract_cluster,
  check_k8s_request, with_k8s, with_cluster, fresh_info, new_request_info,
}
use bke_console_service.Request.Extraction.{EndsFull, split_path-join}
use bke_console_service.Request.Clusters.{
  ClusterPart, cluster_part, direct, proxied, has_karmada, destination,
  cluster_part-new_request_info,
}

-- The cluster that the parts of a path name: "clusters", the name, and at least one part more.
abbrev pub named_cluster : List Text → Option Text
named_cluster [] = none
named_cluster (first ∷ []) = none
named_cluster (first ∷ name ∷ []) = none
named_cluster (first ∷ name ∷ part ∷ parts) =
    if text_eq first (codes "clusters") then some name else none

-- The parts behind the name of the cluster, or all of them.
abbrev pub behind_cluster : List Text → List Text
behind_cluster [] = []
behind_cluster (first ∷ []) = first ∷ []
behind_cluster (first ∷ name ∷ []) = first ∷ name ∷ []
behind_cluster (first ∷ name ∷ part ∷ parts) =
    if text_eq first (codes "clusters") then part ∷ parts else first ∷ name ∷ part ∷ parts

-- Behind karmada where it is there, and with no proxy otherwise or without a cluster.
abbrev pub cluster_of : Bool → Option Text → ClusterPart
cluster_of karmada none = direct []
cluster_of karmada (some name) = if karmada then proxied name else direct name

abbrev written : List Text → Text
written parts = b'/' ∷ join b'/' parts

extract_from-named :
    (karmada : Bool) (parts : List Text)
    → let e = extract_from (written parts) parts in
      (destination karmada e ≡ cluster_of karmada (named_cluster parts))
      × ((if e.found then e.pathname else written parts) ≡ written (behind_cluster parts))
unfolding extract_from
extract_from-named karmada [] = (refl, refl)
extract_from-named karmada (first ∷ []) = (refl, refl)
extract_from-named karmada (first ∷ name ∷ []) = (refl, refl)
extract_from-named karmada (first ∷ name ∷ part ∷ parts) =
    elim (Bool-cases (text_eq first (codes "clusters"))) [
      | inl same ↦ (ground arith, ground arith)
      | inr other ↦ (ground arith, ground arith)
    ]

with_k8s-path :
    (factory : K8sFactory) (global : List GroupResource) (method : Text) (info : RequestInfo)
    (path : Text)
    → (with_k8s factory global method info (check_k8s_request path)).path
      ≡ trim_prefix path (codes "/api/kubernetes")
unfolding with_k8s check_k8s_request
with_k8s-path factory global method info path =
    elim (Bool-cases (has_prefix path (codes "/api/kubernetes"))) [
      | inl there ↦ rw there refl
      | inr missing ↦ rw missing (ground arith)
    ]

-- A request whose path is written with one slash before each part, of which no part holds a slash
-- and the first and the last one are not empty, goes, whatever its method, to the cluster that the
-- second part names, if the first one is "clusters" and there are at least three: through karmada
-- if the client finds the karmada API server, and with no proxy otherwise. It goes on with the path
-- behind that name. Any other such path has no cluster and no proxy, and stays. The prefix of the
-- kubernetes API is taken off either path.
pub new_request_info-named :
    (factory : K8sFactory) (global : List GroupResource) (client : Option ServiceLookup)
    (method : Text) (c : ℕ) (first : Text) (parts : List Text)
    → All (Lacks b'/') ((c ∷ first) ∷ parts)
    → EndsFull ((c ∷ first) ∷ parts)
    → let r = new_request_info factory global client method (written ((c ∷ first) ∷ parts)) in
      (cluster_part r.info ≡ cluster_of (has_karmada client) (named_cluster ((c ∷ first) ∷ parts)))
      × (r.path
          ≡ trim_prefix (written (behind_cluster ((c ∷ first) ∷ parts))) (codes "/api/kubernetes"))
unfolding new_request_info extract_cluster
new_request_info-named factory global client method c first parts plain full =
    let path = written ((c ∷ first) ∷ parts) in
    let split : extract_cluster path ≡ extract_from path ((c ∷ first) ∷ parts) =
      ap (extract_from path) (split_path-join c first parts plain full) in
    let (to, below) = extract_from-named (has_karmada client) ((c ∷ first) ∷ parts) in
    (
      cluster_part-new_request_info factory global client method path
          ∙ ap (destination (has_karmada client)) split
          ∙ to,
      with_k8s-path factory global method
            (with_cluster client (extract_cluster path) (fresh_info method path))
            (if (extract_cluster path).found then (extract_cluster path).pathname else path)
          ∙ ap
              (λ (e : Extracted).
                trim_prefix (if e.found then e.pathname else path) (codes "/api/kubernetes"))
              split
          ∙ ap (λ p. trim_prefix p (codes "/api/kubernetes")) below,
    )
