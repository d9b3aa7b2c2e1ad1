-- ===== src/Start/Kube.antt =====
-- pkg/client/k8s/k8scfg.go and k8sclient.go
use bke_console_service.Prelude.{ℕ, List, [], ◌∷◌, ◌++◌, Option, none, some, if◌then◌else◌}
use bke_console_service.Text.{Text, codes, text_eq}
use bke_console_service.Text.Paths.{path_join}
use bke_console_service.World.{Outcome, ok, err, panic}
use bke_console_service.Start.{
  Process, returns, fails, exits, crashes, ◌>>=◌, passed_on, RestConfig, Machine, ConfigError, said,
  stat_failed, is_there,
}

-- KubernetesCfg; the pointer may be nil
pub record KubernetesCfg : Type 0 where
  pub kube_config_file : Text
  pub kube_config : Option RestConfig
  pub qps : ℕ
  pub burst : ℕ

abbrev home_or_nothing : Outcome Text → Text
home_or_nothing (ok home) = home
home_or_nothing (err e) = []
home_or_nothing panic = []

-- The home directory: homedir.HomeDir, else that of user.Current
unfoldable pub home_path : Machine → Text
unfolding text_eq
home_path machine =
    if text_eq machine.home_dir [] then home_or_nothing machine.user_home else machine.home_dir

-- getKubeConfigFile
unfoldable pub get_kube_config_file : Machine → Text
unfolding home_path path_join
get_kube_config_file machine =
    let user_home_config = path_join (home_path machine ∷ codes ".kube/config" ∷ []) in
    if is_there (machine.stat user_home_config) then user_home_config else []

unfoldable pub built : Outcome RestConfig → Process RestConfig
built (ok config) = returns config
built (err e) = exits
built panic = crashes

unfoldable pub config_from : Machine → Text → Process RestConfig
unfolding text_eq built
config_from machine kube_config_file =
    if text_eq kube_config_file []
    then exits
    else if is_there (machine.stat kube_config_file)
    then built (machine.config_from_file kube_config_file)
    else exits

unfoldable pub in_cluster_or_file : Machine → Outcome RestConfig → Process RestConfig
unfolding config_from get_kube_config_file
in_cluster_or_file machine (ok config) = returns config
in_cluster_or_file machine (err e) = config_from machine (get_kube_config_file machine)
in_cluster_or_file machine panic = crashes

-- GetKubeConfig
unfoldable pub get_kube_config : Machine → Process RestConfig
unfolding in_cluster_or_file
get_kube_config machine = in_cluster_or_file machine machine.in_cluster_config

-- NewKubernetesCfg
unfoldable pub new_kubernetes_cfg : Machine → Process KubernetesCfg
unfolding get_kube_config get_kube_config_file
new_kubernetes_cfg machine = do
  config ← get_kube_config machine
  returns (record {
    kube_config_file = get_kube_config_file machine;
    kube_config = some config;
    qps = 1_000_000;
    burst = 1_000_000;
  })

unfoldable pub kube_file_errors : Machine → Text → List ConfigError
unfolding text_eq
kube_file_errors machine file =
    if text_eq file []
    then []
    else if is_there (machine.stat file)
    then []
    else stat_failed file ∷ []

unfoldable pub missing_config : Option RestConfig → List ConfigError
missing_config none = said (codes "k8s config get nil") ∷ []
missing_config (some config) = []

-- Validate of KubernetesCfg
unfoldable pub validate_kube : Machine → KubernetesCfg → List ConfigError
unfolding kube_file_errors missing_config
validate_kube machine k =
    kube_file_errors machine k.kube_config_file ++ missing_config k.kube_config

-- kubernetesClient, by the configuration that its three clients share
pub record KubernetesClient : Type 0 where
  pub config : RestConfig

unfoldable pub client_of : Machine → RestConfig → Process KubernetesClient
client_of machine config = do
  k8s ← passed_on (machine.new_clientset config)
  snapshot ← passed_on (machine.new_snapshot_client config)
  extensions ← passed_on (machine.new_extensions_client config)
  returns (record { config = config })

unfoldable pub client_for : Machine → KubernetesCfg → Option RestConfig → Process KubernetesClient
unfolding client_of
client_for machine cfg none = fails (codes "kubernetes configuration is missing")
client_for machine cfg (some config) =
    client_of machine (record config { qps = cfg.qps; burst = cfg.burst })

-- NewKubernetesClient
unfoldable pub new_kubernetes_client : Machine → KubernetesCfg → Process KubernetesClient
unfolding client_for
new_kubernetes_client machine cfg = client_for machine cfg cfg.kube_config
