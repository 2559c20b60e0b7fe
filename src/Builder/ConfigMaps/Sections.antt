-- ===== src/Builder/ConfigMaps/Sections.antt =====
-- The sections that the configuration files of internal/builder/configmap.go share, line by line.
use kube_nova_operator.Prelude.{List, String, [], join, ◌∷◌}

-- Lines, each ended by a newline.
abbrev pub lines : List String → String
lines [] = ""
lines (l ∷ ls) = join (l ∷ "\n" ∷ lines ls ∷ [])

-- Sections, with an empty line between two of them.
abbrev pub sections : List (List String) → String
sections [] = ""
sections (s ∷ []) = lines s
sections (s ∷ t ∷ ss) = join (lines s ∷ "\n" ∷ sections (t ∷ ss) ∷ [])

unfoldable pub dev_server : List String
dev_server =
    "DevServer:" ∷ "  Enabled: true" ∷ "  Port: 9999" ∷ "  HealthPath: \"/healthz\""
    ∷ "  MetricsPath: \"/metrics\"" ∷ "  EnableMetrics: true" ∷ []

unfoldable pub telemetry_section : String → List String
telemetry_section name =
    "Telemetry:"
    ∷ join ("  Name: " ∷ name ∷ [])
    ∷ "  Endpoint: ${JAEGER_ENDPOINT}"
    ∷ "  Sampler: ${TELEMETRY_SAMPLER}"
    ∷ "  Batcher: ${TELEMETRY_BATCHER}"
    ∷ []

unfoldable pub log_section : String → List String
log_section name =
    "Log:"
    ∷ join ("  ServiceName: " ∷ name ∷ [])
    ∷ "  Mode: console"
    ∷ "  Encoding: plain"
    ∷ "  TimeFormat: \"2006-01-02 15:04:05\""
    ∷ "  Path: logs"
    ∷ "  Level: info"
    ∷ "  MaxContentLength: 1024"
    ∷ "  Compress: false"
    ∷ "  Stat: true"
    ∷ "  KeepDays: 7"
    ∷ "  StackCooldownMillis: 100"
    ∷ "  MaxBackups: 0"
    ∷ "  MaxSize: 0"
    ∷ "  Rotation: daily"
    ∷ []

unfoldable pub cache_section : List String
cache_section =
    "Cache:" ∷ "  Host: ${REDIS_HOST}:${REDIS_PORT}" ∷ "  Type: ${REDIS_TYPE}"
    ∷ "  Pass: ${REDIS_PASSWORD}" ∷ "  Tls: ${REDIS_TLS}" ∷ "  NonBlock: ${REDIS_NONBLOCK}"
    ∷ "  PingTimeout: ${REDIS_PING_TIMEOUT}" ∷ []

unfoldable pub portal_rpc_section : List String
portal_rpc_section =
    "PortalRpc:" ∷ "  Target: k8s://${POD_NAMESPACE}/portal-rpc:30010" ∷ "  Optional: true"
    ∷ "  NonBlock: true" ∷ "  Timeout: ${DEFAULT_TIMEOUT}" ∷ []

unfoldable pub mysql_section : List String
mysql_section =
    "Mysql:"
    ∷ "  DataSource: ${MYSQL_USER}:${MYSQL_PASSWORD}@tcp(${MYSQL_HOST}:${MYSQL_PORT})/${MYSQL_DATABASE}?charset=utf8mb4&parseTime=True&loc=Local&timeout=10s"
    ∷ "  MaxOpenConns: ${MYSQL_MAX_OPEN_CONNS}" ∷ "  MaxIdleConns: ${MYSQL_MAX_IDLE_CONNS}"
    ∷ "  ConnMaxLifetime: ${MYSQL_CONN_MAX_LIFETIME}" ∷ []

unfoldable pub db_cache_section : List String
db_cache_section =
    "DBCache:" ∷ "  - Host: ${REDIS_HOST}:${REDIS_PORT}" ∷ "    Type: ${REDIS_TYPE}"
    ∷ "    Pass: ${REDIS_PASSWORD}" ∷ "    Tls: ${REDIS_TLS}" ∷ "    NonBlock: ${REDIS_NONBLOCK}"
    ∷ "    PingTimeout: ${REDIS_PING_TIMEOUT}" ∷ []

unfoldable pub manager_rpc_section : List String
manager_rpc_section =
    "ManagerRpc:" ∷ "  Target: k8s://${POD_NAMESPACE}/manager-rpc:30011" ∷ "  Optional: true"
    ∷ "  NonBlock: true" ∷ "  Timeout: ${DEFAULT_TIMEOUT}" ∷ []

unfoldable pub console_rpc_section : List String
console_rpc_section =
    "ConsoleRpc:" ∷ "  Target: k8s://${POD_NAMESPACE}/console-rpc:30018" ∷ "  Optional: true"
    ∷ "  NonBlock: true" ∷ "  Timeout: ${DEFAULT_TIMEOUT}" ∷ []
