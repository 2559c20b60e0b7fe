-- ===== src/Api/Methods.antt =====
-- The helper methods of the API types (api/v1/kubenova_types.go): defaults, switches, and the
-- validation that the types carry themselves.
use kube_nova_operator.Api.{KubeNova}
use kube_nova_operator.Api.Spec.{
  CacheConfig, DatabaseConfig, ImageRegistryConfig, IngressConfig, IngressTlsConfig, MinioTlsConfig,
  NodePortConfig, NodePortHttpsConfig, ServiceConfig, TelemetryConfig, WebConfig,
}
use kube_nova_operator.Kube.Workload.{ResourceRequirements}
use kube_nova_operator.Prelude.{
  Bool, Option, String, [], false, if◌then◌else◌, join, none, not, some, true, ◌&&◌, ◌==◌, ◌∷◌,
}
use kube_nova_operator.Prelude.Int.{is_pos, pos, ℤ}
use kube_nova_operator.Prelude.Results.{Check, plain}

unfoldable pub get_image_registry : KubeNova → ImageRegistryConfig
get_image_registry k = elim (k.spec.image_registry) [
  | some r ↦ r
  | none ↦ record {
    registry = "registry.cn-hangzhou.aliyuncs.com";
    organization = "kube-nova";
    tag = "latest";
    pull_policy = "Always";
    pull_secrets = [];
  }
]

-- A method on a nil receiver answers too.
unfoldable pub is_service_enabled : Option ServiceConfig → Bool
is_service_enabled none = true
is_service_enabled (some s) = elim (s.enabled) [ none ↦ true | some b ↦ b ]

pub get_replicas : Option ServiceConfig → ℤ
get_replicas none = pos 2
get_replicas (some s) = if not (is_pos s.replicas) then pos 2 else s.replicas

pub get_resources : Option ServiceConfig → Option ResourceRequirements
get_resources none = none
get_resources (some s) = s.resources

abbrev pub telemetry_on : Option TelemetryConfig → Bool
telemetry_on none = false
telemetry_on (some t) = t.enabled

unfoldable pub is_telemetry_enabled : KubeNova → Bool
is_telemetry_enabled k = telemetry_on k.spec.telemetry

unfoldable pub validate_telemetry_config {ℓ} : {E : Type ℓ} → TelemetryConfig → Check E
validate_telemetry_config t =
    if not t.enabled
    then none
    else if t.jaeger_endpoint == ""
    then some (plain "链路追踪已启用但未配置 Jaeger 端点地址")
    else none

unfoldable pub validate_minio_tls {ℓ} : {E : Type ℓ} → MinioTlsConfig → Check E
validate_minio_tls tls =
    if not tls.enabled
    then none
    else if tls.secret_name == ""
    then some (plain "MinIO TLS 已启用但未指定证书 Secret 名称")
    else none

-- `w.Ingress.TLS != nil && w.Ingress.TLS.Enabled`
abbrev pub ingress_tls_on : IngressConfig → Bool
ingress_tls_on i = elim (i.tls) [ none ↦ false | some t ↦ t.enabled ]

-- `tls != nil && tls.Enabled && tls.SecretName == ""`
abbrev pub tls_secret_missing : Option IngressTlsConfig → Bool
tls_secret_missing none = false
tls_secret_missing (some t) = t.enabled && t.secret_name == ""

abbrev pub only_enabled : Option NodePortHttpsConfig → Option NodePortHttpsConfig
only_enabled none = none
only_enabled (some h) = if h.enabled then some h else none

-- The HTTPS settings of the node port, if they are there and enabled.
abbrev pub enabled_https : Option NodePortConfig → Option NodePortHttpsConfig
enabled_https none = none
enabled_https (some n) = only_enabled n.https

-- `w.NodePort != nil && w.NodePort.HTTPS != nil && w.NodePort.HTTPS.Enabled`
abbrev pub https_on : Option NodePortConfig → Bool
https_on n = elim (enabled_https n) [ none ↦ false | some _ ↦ true ]

abbrev pub has_no_secret : Option NodePortHttpsConfig → Bool
has_no_secret none = false
has_no_secret (some h) = h.secret_name == ""

abbrev pub validate_ingress {ℓ} : {E : Type ℓ} → Option IngressConfig → Check E
validate_ingress none = some (plain "暴露方式为 ingress 但未配置 Ingress")
validate_ingress (some i) =
    if i.host == ""
    then some (plain "ingress 配置缺少域名")
    else if tls_secret_missing i.tls
    then some (plain "ingress TLS 已启用但未指定证书 Secret 名称")
    else none

unfoldable pub validate_web_config {ℓ} : {E : Type ℓ} → WebConfig → Check E
validate_web_config w =
    if w.expose_type == "ingress"
    then validate_ingress w.ingress
    else if w.expose_type == "nodeport"
    then (if has_no_secret (enabled_https w.node_port)
        then some (plain "NodePort HTTPS 已启用但未指定证书 Secret 名称")
        else none)
    else some (plain (join ("不支持的暴露方式: " ∷ w.expose_type ∷ [])))

pub get_web_replicas : WebConfig → ℤ
get_web_replicas w = if not (is_pos w.replicas) then pos 3 else w.replicas

pub get_max_open_conns : DatabaseConfig → ℤ
get_max_open_conns d = if not (is_pos d.max_open_conns) then pos 100 else d.max_open_conns

pub get_max_idle_conns : DatabaseConfig → ℤ
get_max_idle_conns d = if not (is_pos d.max_idle_conns) then pos 50 else d.max_idle_conns

pub get_conn_max_lifetime : DatabaseConfig → String
get_conn_max_lifetime d = if d.conn_max_lifetime == "" then "30m" else d.conn_max_lifetime

pub get_cache_password : CacheConfig → String
get_cache_password c = c.password
