-- ===== src/Builder/Web/Nginx.antt =====
-- internal/builder/nginx.go: the two files of the web server's configuration.
pub mod MainConf
pub mod Servers
pub mod Locations
pub mod Static
pub mod Minio
pub mod Braces
pub mod Balanced
use Prim.Native.String
use Prim.Native.Char.{code}
use kube_nova_operator.Api.{KubeNova}
use kube_nova_operator.Api.Endpoints.{
  get_minio_proxy_path, is_minio_proxy_enabled, scheme, storage_tls_on,
}
use kube_nova_operator.Builder.{get_common_labels}
use kube_nova_operator.Builder.ConfigMaps.Sections.{lines}
use kube_nova_operator.Builder.Web.{https_mode}
use kube_nova_operator.Builder.Web.Nginx.Locations.{
  manager_location, portal_location, websocket_location,
}
use kube_nova_operator.Builder.Web.Nginx.MainConf.{build_nginx_conf}
use kube_nova_operator.Builder.Web.Nginx.Minio.{minio_location, minio_ssl}
use kube_nova_operator.Builder.Web.Nginx.Servers.{
  http_body, http_head, https_head, https_redirect, minio_upstream, upstreams,
}
use kube_nova_operator.Builder.Web.Nginx.Static.{
  console_location, static_locations, workload_location,
}
use kube_nova_operator.Kube.{ConfigMap, object_meta}
use kube_nova_operator.Prelude.{
  Bool, List, String, [], false, if◌then◌else◌, nat_eq, ◌++◌, ◌||◌, ◌∷◌,
}

pub contains_dot : String → Bool
contains_dot String.[] = false
contains_dot (String.◌∷◌ c s) = nat_eq (code c) b'.' || contains_dot s

-- The location of the object store, if the proxy is on.
unfoldable pub minio_block : KubeNova → List String
minio_block kn =
    if is_minio_proxy_enabled kn
    then minio_location (scheme (storage_tls_on kn.spec.storage)) (get_minio_proxy_path kn)
      ++ ((if storage_tls_on kn.spec.storage then minio_ssl else []) ++ "    }" ∷ [])
    else []

unfoldable pub build_location_blocks : KubeNova → List String
build_location_blocks kn =
    websocket_location
    ++ (portal_location
        ++ (manager_location
            ++ (workload_location ++ (console_location ++ (minio_block kn ++ static_locations)))))

unfoldable pub build_http_server_block : KubeNova → List String
build_http_server_block kn =
    http_head
    ++ (if https_mode kn
        then https_redirect
        else http_body ++ (build_location_blocks kn ++ "}" ∷ []))

unfoldable pub build_https_server_block : KubeNova → List String
build_https_server_block kn = https_head ++ (build_location_blocks kn ++ "}" ∷ [])

-- The file as lines.
unfoldable pub default_conf_lines : KubeNova → List String
default_conf_lines kn =
    upstreams
    ++ ((if is_minio_proxy_enabled kn then minio_upstream kn.spec.storage.endpoint else [])
        ++ (build_http_server_block kn
            ++ (if https_mode kn then build_https_server_block kn else [])))

unfoldable pub build_default_conf : KubeNova → String
build_default_conf kn = lines (default_conf_lines kn)

unfoldable pub build_nginx_config_map : KubeNova → String → ConfigMap
build_nginx_config_map kn namespace = record {
  metadata = object_meta "frontend-nginx-config" namespace (get_common_labels kn);
  entries = ("nginx.conf", build_nginx_conf) ∷ ("default.conf", build_default_conf kn) ∷ [];
}
