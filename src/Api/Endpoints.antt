-- ===== src/Api/Endpoints.antt =====
-- The endpoints that the API types compute (api/v1/kubenova_types.go).
use kube_nova_operator.Api.{KubeNova}
use kube_nova_operator.Api.Methods.{https_on, ingress_tls_on}
use kube_nova_operator.Api.Spec.{
  CacheConfig, DatabaseConfig, IngressConfig, MinioProxyConfig, StorageConfig, WebConfig,
}
use kube_nova_operator.Prelude.{
  Bool, Option, String, [], drop_slash, false, if◌then◌else◌, join, none, not, some, ◌==◌, ◌∷◌,
}
use kube_nova_operator.Prelude.Int.{decimal, int_eq, pos, ℤ}

pub get_database_connection_string : DatabaseConfig → String
get_database_connection_string d = join (
    d.user
    ∷ ":"
    ∷ d.password
    ∷ "@tcp("
    ∷ d.host
    ∷ ":"
    ∷ decimal d.port
    ∷ ")/"
    ∷ d.database
    ∷ "?charset=utf8mb4&parseTime=True&loc=Local&timeout=10s"
    ∷ [])

abbrev pub storage_tls_on : StorageConfig → Bool
storage_tls_on s = elim (s.tls) [ none ↦ false | some t ↦ t.enabled ]

pub get_storage_endpoint : StorageConfig → String
get_storage_endpoint s =
    if storage_tls_on s
    then join ("https://" ∷ s.endpoint ∷ [])
    else join ("http://" ∷ s.endpoint ∷ [])

pub get_cache_endpoint : CacheConfig → String
get_cache_endpoint c = join (c.host ∷ ":" ∷ decimal c.port ∷ [])

pub get_database_endpoint : DatabaseConfig → String
get_database_endpoint d = join (d.host ∷ ":" ∷ decimal d.port ∷ [])

-- `k.Spec.Web.MinIOProxy != nil && k.Spec.Web.MinIOProxy.Enabled`
abbrev pub enabled_proxy : Option MinioProxyConfig → Bool
enabled_proxy none = false
enabled_proxy (some p) = p.enabled

unfoldable pub is_minio_proxy_enabled : KubeNova → Bool
is_minio_proxy_enabled k = enabled_proxy k.spec.web.minio_proxy

abbrev pub proxy_path : Option MinioProxyConfig → String
proxy_path none = "/storage"
proxy_path (some p) = if p.path_prefix == "" then "/storage" else p.path_prefix

unfoldable pub get_minio_proxy_path : KubeNova → String
get_minio_proxy_path k = proxy_path k.spec.web.minio_proxy

abbrev pub proxy_endpoint_of : Option MinioProxyConfig → String
proxy_endpoint_of none = ""
proxy_endpoint_of (some p) = p.proxy_endpoint

unfoldable pub get_minio_proxy_endpoint : KubeNova → String
get_minio_proxy_endpoint k = proxy_endpoint_of k.spec.web.minio_proxy

-- `k.Spec.Web.ExposeType == "ingress" && k.Spec.Web.Ingress != nil`, with the Ingress.
abbrev pub used_ingress : WebConfig → Option IngressConfig
used_ingress w = if w.expose_type == "ingress" then w.ingress else none

unfoldable pub get_minio_endpoint_for_backend : KubeNova → String
unfolding is_minio_proxy_enabled get_minio_proxy_path get_minio_proxy_endpoint
get_minio_endpoint_for_backend k =
    if not (is_minio_proxy_enabled k)
    then k.spec.storage.endpoint
    else if not (get_minio_proxy_endpoint k == "")
    then get_minio_proxy_endpoint k
    else elim (used_ingress k.spec.web) [
      | some i ↦ join (i.host ∷ "/" ∷ drop_slash (get_minio_proxy_path k) ∷ [])
      | none ↦ join ("<NODE_IP>:<NODE_PORT>/" ∷ drop_slash (get_minio_proxy_path k) ∷ [])
    ]

abbrev pub scheme : Bool → String
scheme tls = if tls then "https" else "http"

abbrev pub node_ip_or_placeholder : String → String
node_ip_or_placeholder ip = if ip == "" then "<NODE_IP>" else ip

abbrev pub node_port_or_default : Bool → ℤ → ℤ
node_port_or_default https port =
    if int_eq port (pos 0) then (if https then pos 30443 else pos 30080) else port

unfoldable pub get_minio_endpoint_for_backend_with_node_info : KubeNova → String → ℤ → String
unfolding is_minio_proxy_enabled get_minio_proxy_path get_minio_proxy_endpoint
get_minio_endpoint_for_backend_with_node_info k node_ip node_port =
    if not (is_minio_proxy_enabled k)
    then k.spec.storage.endpoint
    else if not (get_minio_proxy_endpoint k == "")
    then get_minio_proxy_endpoint k
    else elim (used_ingress k.spec.web) [
      | some i ↦ join (
          scheme (ingress_tls_on i)
          ∷ "://"
          ∷ i.host
          ∷ "/"
          ∷ drop_slash (get_minio_proxy_path k)
          ∷ [])
      | none ↦ join (
          scheme (https_on k.spec.web.node_port)
          ∷ "://"
          ∷ node_ip_or_placeholder node_ip
          ∷ ":"
          ∷ decimal (node_port_or_default (https_on k.spec.web.node_port) node_port)
          ∷ "/"
          ∷ drop_slash (get_minio_proxy_path k)
          ∷ [])
    ]
