-- ===== src/Builder/ConfigMaps.antt =====
-- internal/builder/configmap.go: the configuration files of the back-end services.
pub mod Sections
pub mod ApiTexts
pub mod RpcTexts
pub mod Placeholders
use kube_nova_operator.Api.{KubeNova}
use kube_nova_operator.Builder.{get_common_labels}
use kube_nova_operator.Builder.ConfigMaps.ApiTexts.{
  console_api_config, manager_api_config, portal_api_config, workload_api_config,
}
use kube_nova_operator.Builder.ConfigMaps.RpcTexts.{
  console_rpc_config, manager_rpc_config, portal_rpc_config,
}
use kube_nova_operator.Kube.{ConfigMap, object_meta}
use kube_nova_operator.Prelude.{List, String, [], ◌∷◌}
use kube_nova_operator.Prelude.Maps.{Map}

abbrev pub config_map : String → String → Map String → String → ConfigMap
config_map name namespace labels config = record {
  metadata = object_meta name namespace labels;
  entries = ("config.yaml", config) ∷ [];
}

unfoldable pub build_portal_api_config_map : KubeNova → String → ConfigMap
build_portal_api_config_map kn namespace =
    config_map "portal-api-config" namespace (get_common_labels kn) portal_api_config

unfoldable pub build_portal_rpc_config_map : KubeNova → String → ConfigMap
build_portal_rpc_config_map kn namespace =
    config_map "portal-rpc-config" namespace (get_common_labels kn) portal_rpc_config

unfoldable pub build_manager_api_config_map : KubeNova → String → ConfigMap
build_manager_api_config_map kn namespace =
    config_map "manager-api-config" namespace (get_common_labels kn) manager_api_config

unfoldable pub build_manager_rpc_config_map : KubeNova → String → ConfigMap
build_manager_rpc_config_map kn namespace =
    config_map "manager-rpc-config" namespace (get_common_labels kn) manager_rpc_config

unfoldable pub build_workload_api_config_map : KubeNova → String → ConfigMap
build_workload_api_config_map kn namespace =
    config_map "workload-api-config" namespace (get_common_labels kn) workload_api_config

unfoldable pub build_console_api_config_map : KubeNova → String → ConfigMap
build_console_api_config_map kn namespace =
    config_map "console-api-config" namespace (get_common_labels kn) console_api_config

unfoldable pub build_console_rpc_config_map : KubeNova → String → ConfigMap
build_console_rpc_config_map kn namespace =
    config_map "console-rpc-config" namespace (get_common_labels kn) console_rpc_config

unfoldable pub build_all_config_maps : KubeNova → String → List ConfigMap
unfolding build_portal_api_config_map build_portal_rpc_config_map build_manager_api_config_map
    build_manager_rpc_config_map build_workload_api_config_map build_console_api_config_map
    build_console_rpc_config_map
build_all_config_maps kn namespace =
    build_portal_api_config_map kn namespace
    ∷ build_portal_rpc_config_map kn namespace
    ∷ build_manager_api_config_map kn namespace
    ∷ build_manager_rpc_config_map kn namespace
    ∷ build_workload_api_config_map kn namespace
    ∷ build_console_api_config_map kn namespace
    ∷ build_console_rpc_config_map kn namespace
    ∷ []
