-- ===== src/Builder/ConfigMaps/RpcTexts.antt =====
-- The configuration files of the RPC services, from internal/builder/configmap.go.
use kube_nova_operator.Builder.ConfigMaps.Sections.{
  cache_section, db_cache_section, dev_server, log_section, mysql_section, portal_rpc_section,
  sections, telemetry_section,
}
use kube_nova_operator.Prelude.{List, String, [], ◌∷◌}

portal_rpc_head : List String
portal_rpc_head =
    "Name: portal.rpc" ∷ "ListenOn: 0.0.0.0:30010" ∷ "Mode: pro" ∷ "Timeout: ${DEFAULT_TIMEOUT}"
    ∷ "DemoMode: ${DEMO_MODE}" ∷ "PortalName: ${PORTAL_NAME}" ∷ "PortalUrl: ${PORTAL_URL}" ∷ []

portal_rpc_storageconf : List String
portal_rpc_storageconf =
    "StorageConf:" ∷ "  Provider: minio" ∷ "  Endpoints: [\"${MINIO_ENDPOINT}\"]"
    ∷ "  EndpointProxy: ${MINIO_ENDPOINT_PROXY}" ∷ "  AccessKey: ${MINIO_ACCESS_KEY}"
    ∷ "  AccessSecret: ${MINIO_SECRET_KEY}" ∷ "  BucketName: ${MINIO_BUCKET}"
    ∷ "  UseTLS: ${MINIO_USE_SSL}" ∷ "  CAFile: ${MINIO_CA_FILE}" ∷ "  CAKey: ${MINIO_CA_KEY}" ∷ []

portal_rpc_authconfig : List String
portal_rpc_authconfig =
    "AuthConfig:" ∷ "  AccessSecret: ${JWT_ACCESS_SECRET}" ∷ "  AccessExpire: ${JWT_ACCESS_EXPIRE}"
    ∷ "  RefreshSecret: ${JWT_REFRESH_SECRET}" ∷ "  RefreshExpire: ${JWT_REFRESH_EXPIRE}"
    ∷ "  RefreshAfter: ${JWT_REFRESH_AFTER}" ∷ []

unfoldable pub portal_rpc_config : String
unfolding portal_rpc_head dev_server telemetry_section log_section cache_section mysql_section
    db_cache_section portal_rpc_storageconf portal_rpc_authconfig
portal_rpc_config = sections (
    portal_rpc_head
    ∷ dev_server
    ∷ telemetry_section "portal-rpc"
    ∷ log_section "portal-rpc"
    ∷ cache_section
    ∷ mysql_section
    ∷ db_cache_section
    ∷ portal_rpc_storageconf
    ∷ portal_rpc_authconfig
    ∷ [])

manager_rpc_head : List String
manager_rpc_head =
    "Name: manager.rpc" ∷ "ListenOn: 0.0.0.0:30011" ∷ "Mode: pro" ∷ "Timeout: ${DEFAULT_TIMEOUT}"
    ∷ []

unfoldable pub manager_rpc_config : String
unfolding manager_rpc_head dev_server telemetry_section log_section cache_section mysql_section
    db_cache_section portal_rpc_section
manager_rpc_config = sections (
    manager_rpc_head
    ∷ dev_server
    ∷ telemetry_section "manager-rpc"
    ∷ log_section "manager-rpc"
    ∷ cache_section
    ∷ mysql_section
    ∷ db_cache_section
    ∷ portal_rpc_section
    ∷ [])

console_rpc_head : List String
console_rpc_head =
    "Name: console.rpc" ∷ "ListenOn: 0.0.0.0:30018" ∷ "Mode: pro" ∷ "Timeout: ${DEFAULT_TIMEOUT}"
    ∷ []

unfoldable pub console_rpc_config : String
unfolding console_rpc_head dev_server telemetry_section log_section cache_section mysql_section
    db_cache_section
console_rpc_config = sections (
    console_rpc_head
    ∷ dev_server
    ∷ telemetry_section "console-rpc"
    ∷ log_section "console-rpc"
    ∷ cache_section
    ∷ mysql_section
    ∷ db_cache_section
    ∷ [])
