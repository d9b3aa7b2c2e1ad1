-- ===== src/Constants.antt =====
-- pkg/constant/constants.go and the path constants of pkg/server/runtime/webservices.go
use bke_console_service.Prelude.{◌++◌}
use bke_console_service.Text.{Text, codes}

abbrev pub console_service_default_namespace : Text
console_service_default_namespace = codes "openfuyao-system"

abbrev pub console_service_default_host : Text
console_service_default_host = codes "console"

abbrev pub console_plugin_default_host : Text
console_plugin_default_host = codes "console/plugin"

abbrev pub console_service_default_api_version : Text
console_service_default_api_version = codes "v1beta1"

abbrev pub console_service_configmap : Text
console_service_configmap = codes "console-service-config"

abbrev pub console_service_token_key : Text
console_service_token_key = codes "console-service-token-key"

abbrev pub symmetric_key : Text
symmetric_key = codes "console-service-symmetric-key"

abbrev pub ca_path : Text
ca_path = codes "/ssl/ca.pem"

abbrev pub tls_cert_path : Text
tls_cert_path = codes "/ssl/server.crt"

abbrev pub tls_key_path : Text
tls_key_path = codes "/ssl/server.key"

abbrev pub karmada_namespace : Text
karmada_namespace = codes "karmada-system"

abbrev pub karmada_api_server : Text
karmada_api_server = codes "karmada-apiserver"

abbrev pub karmada_api_server_port : Text
karmada_api_server_port = codes "5443"

abbrev pub multi_cluster_proxy_scheme : Text
multi_cluster_proxy_scheme = codes "https"

abbrev pub multi_cluster_proxy_host : Text
multi_cluster_proxy_host =
    karmada_api_server
    ++ codes "."
    ++ karmada_namespace
    ++ codes ".svc.cluster.local:"
    ++ karmada_api_server_port

abbrev pub multi_cluster_proxy_url : Text
multi_cluster_proxy_url = codes "/apis/cluster.karmada.io/v1alpha1/clusters/{cluster}/proxy"

abbrev pub multi_cluster_plugin_name : Text
multi_cluster_plugin_name = codes "multicluster"

abbrev pub single_cluster_proxy_scheme : Text
single_cluster_proxy_scheme = codes "https"

abbrev pub single_cluster_proxy_host : Text
single_cluster_proxy_host = codes "kubernetes.default.svc.cluster.local:443"

abbrev pub service_proxy_url : Text
service_proxy_url = codes "/api/v1/namespaces/{namespace}/services/{service}:{port}/proxy"

abbrev pub open_fuyao_auth_header : Text
open_fuyao_auth_header = codes "X-OpenFuyao-Authorization"

abbrev pub only_access_token_expired : Text
only_access_token_expired = codes "the access-token has expired"

abbrev pub rest_root_path : Text
rest_root_path = codes "/rest"

abbrev pub ws_root_path : Text
ws_root_path = codes "/ws"
