-- ===== src/Filters/Component/Target.antt =====
-- The paths with which requests are proxied.
use bke_console_service.Prelude.{
  ℕ, ◌≤◌, length, drop, ◌≡◌, ◌≢◌, ap, ◌∙◌, Bool, true, false, List, [], ◌∷◌, ◌++◌, All,
}
use bke_console_service.Text.{Text, split, join}
use bke_console_service.Text.Paths.{dot_dot, walk, path_join}
use bke_console_service.Text.Paths.Under.{kept, segments, path_join_under}
use bke_console_service.Text.Paths.Climb.{IsEntry, escape_path, path_join_escape}
use bke_console_service.World.{Request}
use bke_console_service.Request.{RequestInfo, is_multi_cluster_request}
use bke_console_service.Filters.Host.Print.{
  IsLabel, IsPort, print_host, print_path, convert_to_service_proxy_path-print,
}
use bke_console_service.Filters.Component.{single_cluster, cluster_path, proxy_by_cluster}

below-service :
    (secure : Bool) (svc ns port path : Text)
    → All (λ part. part ≢ dot_dot) (split b'/' path)
    → path_join (print_path secure svc ns port ∷ path ∷ [])
      ≡ b'/' ∷ join b'/' (segments (print_path secure svc ns port) ++ kept (split b'/' path))
below-service true svc ns port path h =
    path_join_under (drop 1 (print_path true svc ns port)) path h
below-service false svc ns port path h =
    path_join_under (drop 1 (print_path false svc ns port)) path h

outside-service :
    (secure : Bool) (svc ns port : Text) (n : ℕ) (target : List Text)
    → length (walk true [] (split b'/' (print_path secure svc ns port))) ≤ n
    → All IsEntry target
    → path_join (print_path secure svc ns port ∷ escape_path n target ∷ [])
      ≡ b'/' ∷ join b'/' target
outside-service true svc ns port n target l h =
    path_join_escape (drop 1 (print_path true svc ns port)) n target l h
outside-service false svc ns port n target l h =
    path_join_escape (drop 1 (print_path false svc ns port)) n target l h

-- A request of the own cluster whose path has no part ".." is proxied below the path of the
-- service that the configured host names: the parts of the request's path are added to those of
-- the service's path, empty ones and "." left out.
pub proxy_by_cluster-under :
    (secure long : Bool) (svc ns port : Text) (info : RequestInfo) (req : Request)
    → IsLabel svc
    → IsLabel ns
    → IsPort port
    → is_multi_cluster_request info ≡ false
    → All (λ part. part ≢ dot_dot) (split b'/' req.path)
    → proxy_by_cluster info (print_host secure long svc ns port) req ≡ record {
      proxy = single_cluster;
      request = record req {
        path =
            b'/'
            ∷ join b'/' (segments (print_path secure svc ns port) ++ kept (split b'/' req.path));
      };
    }
unfolding proxy_by_cluster cluster_path
proxy_by_cluster-under secure long svc ns port info req s n p own plain = rw own (
    ap (λ path. record { proxy = single_cluster; request = record req { path = path } })
      (ap (λ base. path_join (base ∷ req.path ∷ []))
          (convert_to_service_proxy_path-print secure long svc ns port s n p)
        ∙ below-service secure svc ns port req.path plain))

-- A request of the own cluster whose path begins with at least as many ".." as the path of the
-- service has parts is proxied to whatever path of the API server comes behind them.
pub proxy_by_cluster-outside :
    (secure long : Bool) (svc ns port : Text) (info : RequestInfo) (req : Request) (n : ℕ)
    (target : List Text)
    → IsLabel svc
    → IsLabel ns
    → IsPort port
    → is_multi_cluster_request info ≡ false
    → length (walk true [] (split b'/' (print_path secure svc ns port))) ≤ n
    → All IsEntry target
    → req.path ≡ escape_path n target
    → proxy_by_cluster info (print_host secure long svc ns port) req
      ≡ record { proxy = single_cluster; request = record req { path = b'/' ∷ join b'/' target } }
unfolding proxy_by_cluster cluster_path
proxy_by_cluster-outside secure long svc ns port info req n target s l p own long_enough h q =
    rw own (
      ap (λ path. record { proxy = single_cluster; request = record req { path = path } })
        (ap (λ base. path_join (base ∷ req.path ∷ []))
            (convert_to_service_proxy_path-print secure long svc ns port s l p)
          ∙ ap (λ path. path_join (print_path secure svc ns port ∷ path ∷ [])) q
          ∙ outside-service secure svc ns port n target long_enough h))
