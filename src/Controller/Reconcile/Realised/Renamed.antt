-- ===== src/Controller/Reconcile/Realised/Renamed.antt =====
-- The objects are built from the specification, the name and the namespace alone
-- (internal/builder).
use kube_nova_operator.Api.{KubeNova}
use kube_nova_operator.Api.Endpoints.{
  get_minio_endpoint_for_backend_with_node_info, get_minio_proxy_path, is_minio_proxy_enabled,
}
use kube_nova_operator.Api.Methods.{get_image_registry}
use kube_nova_operator.Api.Spec.{KubeNovaSpec}
use kube_nova_operator.Builder.{get_common_labels}
use kube_nova_operator.Builder.ConfigMaps.{
  build_all_config_maps, build_console_api_config_map, build_console_rpc_config_map,
  build_manager_api_config_map, build_manager_rpc_config_map, build_portal_api_config_map,
  build_portal_rpc_config_map, build_workload_api_config_map,
}
use kube_nova_operator.Builder.Secret.{endpoint_proxy_of, secret_data}
use kube_nova_operator.Builder.Service.All.{build_all_services}
use kube_nova_operator.Builder.Service.Pod.{
  build_deployment, build_k8s_service, build_service, service_container,
}
use kube_nova_operator.Builder.Web.Nginx.{
  build_default_conf, build_http_server_block, build_https_server_block, build_location_blocks,
  build_nginx_config_map, default_conf_lines, minio_block,
}
use kube_nova_operator.Builder.Web.Pod.{
  build_web_deployment, get_web_ports, get_web_resource_requirements, get_web_volume_mounts,
  get_web_volumes, web_container,
}
use kube_nova_operator.Controller.Status.Retry.{SameButStatus}
use kube_nova_operator.Prelude.{String, ap, refl, ◌∙◌, ◌≡◌}
use kube_nova_operator.Prelude.Int.{ℤ}

-- Another KubeNova with these.
abbrev with_spec : KubeNova → KubeNovaSpec → String → String → KubeNova
with_spec kn spec name namespace = record kn {
  metadata = record (kn.metadata) { name = name; namespace = namespace };
  spec = spec;
}

module _ {X : Type 0} (build : KubeNova → X)
    (blind : (a b : KubeNova)
      → build a ≡ build (with_spec b a.spec a.metadata.name a.metadata.namespace)) where
  built_same : (a b : KubeNova) → SameButStatus a b → build a ≡ build b
  built_same a b h =
      blind a b
      ∙ ap (λ x. build (with_spec b x a.metadata.name a.metadata.namespace)) h.spec
      ∙ ap (λ x. build (with_spec b b.spec x a.metadata.namespace)) h.name
      ∙ ap (λ x. build (with_spec b b.spec b.metadata.name x)) h.namespace

pub secret_data_same :
    (ip : String) (port : ℤ) (a b : KubeNova)
    → SameButStatus a b
    → secret_data a ip port ≡ secret_data b ip port
unfolding secret_data endpoint_proxy_of is_minio_proxy_enabled
    get_minio_endpoint_for_backend_with_node_info
secret_data_same ip port = built_same (λ k. secret_data k ip port) (λ a b. refl)

pub config_maps_same :
    (ns : String) (a b : KubeNova)
    → SameButStatus a b
    → build_all_config_maps a ns ≡ build_all_config_maps b ns
unfolding build_all_config_maps build_portal_api_config_map build_portal_rpc_config_map
    build_manager_api_config_map build_manager_rpc_config_map build_workload_api_config_map
    build_console_api_config_map build_console_rpc_config_map get_common_labels
config_maps_same ns = built_same (λ k. build_all_config_maps k ns) (λ a b. refl)

pub services_same :
    (ns : String) (a b : KubeNova)
    → SameButStatus a b
    → build_all_services a ns ≡ build_all_services b ns
unfolding build_all_services build_service build_deployment build_k8s_service service_container
    get_image_registry
services_same ns = built_same (λ k. build_all_services k ns) (λ a b. refl)

pub web_deployment_same :
    (ns : String) (a b : KubeNova)
    → SameButStatus a b
    → build_web_deployment a ns ≡ build_web_deployment b ns
unfolding build_web_deployment web_container get_web_volumes get_image_registry get_web_ports
    get_web_resource_requirements get_web_volume_mounts
web_deployment_same ns = built_same (λ k. build_web_deployment k ns) (λ a b. refl)

pub nginx_map_same :
    (ns : String) (a b : KubeNova)
    → SameButStatus a b
    → build_nginx_config_map a ns ≡ build_nginx_config_map b ns
unfolding build_nginx_config_map get_common_labels build_default_conf default_conf_lines
    is_minio_proxy_enabled build_http_server_block build_https_server_block build_location_blocks
    minio_block get_minio_proxy_path
nginx_map_same ns = built_same (λ k. build_nginx_config_map k ns) (λ a b. refl)
