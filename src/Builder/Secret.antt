-- ===== src/Builder/Secret.antt =====
-- internal/builder/secret.go: the Secret that every back-end service takes its environment from.
use kube_nova_operator.Api.{KubeNova}
use kube_nova_operator.Api.Endpoints.{
  get_minio_endpoint_for_backend_with_node_info, is_minio_proxy_enabled, scheme, storage_tls_on,
}
use kube_nova_operator.Api.Methods.{
  get_cache_password, get_conn_max_lifetime, get_max_idle_conns, get_max_open_conns,
}
use kube_nova_operator.Api.Spec.{
  CacheConfig, DatabaseConfig, JwtConfig, PortalConfig, StorageConfig, TelemetryConfig,
}
use kube_nova_operator.Builder.{get_common_labels}
use kube_nova_operator.Kube.{Secret, object_meta}
use kube_nova_operator.Prelude.{
  Bool, Option, String, [], if◌then◌else◌, join, none, not, some, ◌++◌, ◌==◌, ◌∷◌,
}
use kube_nova_operator.Prelude.Int.{bool_text, decimal, ℤ}
use kube_nova_operator.Prelude.Maps.{Map}

-- The address that browsers use to reach the object store.
unfoldable pub endpoint_proxy_of : KubeNova → String → ℤ → String
endpoint_proxy_of kn node_ip node_port =
    if not (kn.spec.storage.endpoint_proxy == "")
    then kn.spec.storage.endpoint_proxy
    else if is_minio_proxy_enabled kn
    then get_minio_endpoint_for_backend_with_node_info kn node_ip node_port
    else join (scheme (storage_tls_on kn.spec.storage) ∷ "://" ∷ kn.spec.storage.endpoint ∷ [])

-- The pairs of the branch on `useSSL`.
abbrev pub minio_cert_entries : Bool → Map String
minio_cert_entries use_ssl =
    ("MINIO_CA_FILE", if use_ssl then "/app/etc/minio-certs/public.crt" else "")
    ∷ ("MINIO_CA_KEY", if use_ssl then "/app/etc/minio-certs/private.key" else "")
    ∷ []

-- The branch on `IsTelemetryEnabled`: the value of an entry if tracing is on, or the default.
abbrev pub telemetry_value : Option TelemetryConfig → (TelemetryConfig → String) → String → String
telemetry_value none field default = default
telemetry_value (some t) field default = if t.enabled then field t else default

abbrev pub telemetry_entries : Option TelemetryConfig → Map String
telemetry_entries t =
    ("JAEGER_ENDPOINT", telemetry_value t (λ c. c.jaeger_endpoint) "")
    ∷ ("TELEMETRY_SAMPLER", telemetry_value t (λ c. c.sampler) "0")
    ∷ ("TELEMETRY_BATCHER", telemetry_value t (λ c. c.batcher) "jaeger")
    ∷ []

-- The branch on `Portal != nil`.
abbrev pub portal_value : Option PortalConfig → (PortalConfig → String) → String → String
portal_value none field default = default
portal_value (some p) field default = field p

abbrev pub portal_entries : Option PortalConfig → Map String
portal_entries p =
    ("PORTAL_NAME", portal_value p (λ c. c.name) "Kube-Nova 云原生平台")
    ∷ ("PORTAL_URL", portal_value p (λ c. c.url) "")
    ∷ ("DEMO_MODE", portal_value p (λ c. bool_text c.demo_mode) "false")
    ∷ []

abbrev pub database_entries : DatabaseConfig → Map String
database_entries d =
    ("MYSQL_HOST", d.host)
    ∷ ("MYSQL_PORT", decimal d.port)
    ∷ ("MYSQL_DATABASE", d.database)
    ∷ ("MYSQL_USER", d.user)
    ∷ ("MYSQL_PASSWORD", d.password)
    ∷ ("MYSQL_MAX_OPEN_CONNS", decimal (get_max_open_conns d))
    ∷ ("MYSQL_MAX_IDLE_CONNS", decimal (get_max_idle_conns d))
    ∷ ("MYSQL_CONN_MAX_LIFETIME", get_conn_max_lifetime d)
    ∷ []

abbrev pub cache_entries : CacheConfig → Map String
cache_entries c =
    ("REDIS_HOST", c.host)
    ∷ ("REDIS_PORT", decimal c.port)
    ∷ ("REDIS_PASSWORD", get_cache_password c)
    ∷ ("REDIS_TYPE", c.kind)
    ∷ ("REDIS_TLS", bool_text c.tls)
    ∷ ("REDIS_NONBLOCK", bool_text c.non_block)
    ∷ ("REDIS_PING_TIMEOUT", c.ping_timeout)
    ∷ []

abbrev pub storage_entries : StorageConfig → Map String
storage_entries s =
    ("MINIO_ENDPOINT", s.endpoint)
    ∷ ("MINIO_ACCESS_KEY", s.access_key)
    ∷ ("MINIO_SECRET_KEY", s.secret_key)
    ∷ ("MINIO_BUCKET", s.bucket)
    ∷ ("MINIO_USE_SSL", bool_text (storage_tls_on s))
    ∷ []

abbrev pub jwt_entries : JwtConfig → Map String
jwt_entries j =
    ("JWT_ACCESS_SECRET", j.access_secret)
    ∷ ("JWT_ACCESS_EXPIRE", decimal j.access_expire)
    ∷ ("JWT_REFRESH_SECRET", j.refresh_secret)
    ∷ ("JWT_REFRESH_EXPIRE", decimal j.refresh_expire)
    ∷ ("JWT_REFRESH_AFTER", decimal j.refresh_after)
    ∷ []

-- The keys are distinct, so the map that the code fills one assignment at a time is this list.
unfoldable pub secret_data : KubeNova → String → ℤ → Map String
secret_data kn node_ip node_port =
    ("DEFAULT_TIMEOUT", decimal kn.spec.services.global_timeout)
    ∷ (database_entries kn.spec.database
        ++ (cache_entries kn.spec.cache
            ++ (storage_entries kn.spec.storage
                ++ (minio_cert_entries (storage_tls_on kn.spec.storage)
                    ++ (("MINIO_ENDPOINT_PROXY", endpoint_proxy_of kn node_ip node_port)
                        ∷ (jwt_entries kn.spec.services.jwt
                            ++ (("ALERTMANAGER_WEBHOOK_TOKEN", kn.spec.services.webhook_token)
                                ∷ (telemetry_entries kn.spec.telemetry
                                    ++ (portal_entries kn.spec.services.portal
                                        ++ ("INJECT_IMAGE", kn.spec.services.inject_image)
                                          ∷ [])))))))))

unfoldable pub build_secret : KubeNova → String → String → ℤ → Secret
unfolding get_common_labels
build_secret kn namespace node_ip node_port = record {
  metadata = object_meta "kube-nova-secret" namespace (get_common_labels kn);
  kind = "Opaque";
  entries = secret_data kn node_ip node_port;
}
