-- ===== src/Builder/ConfigMaps/ApiTexts.antt =====
-- The configuration files of the API services, from internal/builder/configmap.go.
use kube_nova_operator.Builder.ConfigMaps.Sections.{
  cache_section, console_rpc_section, dev_server, log_section, manager_rpc_section,
  portal_rpc_section, sections, telemetry_section,
}
use kube_nova_operator.Prelude.{List, String, [], ◌∷◌}

portal_api_head : List String
portal_api_head =
    "Name: portal-api" ∷ "Host: 0.0.0.0" ∷ "Port: 8810" ∷ "Mode: pro"
    ∷ "Timeout: ${DEFAULT_TIMEOUT}" ∷ "MaxBytes: 10485760" ∷ []

unfoldable pub portal_api_config : String
unfolding portal_api_head dev_server telemetry_section log_section cache_section portal_rpc_section
portal_api_config = sections (
    portal_api_head
    ∷ dev_server
    ∷ telemetry_section "portal-api"
    ∷ log_section "portal-api"
    ∷ cache_section
    ∷ portal_rpc_section
    ∷ [])

manager_api_head : List String
manager_api_head =
    "Name: manager-api" ∷ "Host: 0.0.0.0" ∷ "Port: 8811" ∷ "Mode: pro"
    ∷ "Timeout: ${DEFAULT_TIMEOUT}" ∷ "MaxBytes: 10485760" ∷ []

manager_api_webhook : List String
manager_api_webhook = "Webhook:" ∷ "  AlertmanagerToken: ${ALERTMANAGER_WEBHOOK_TOKEN}" ∷ []

unfoldable pub manager_api_config : String
unfolding manager_api_head manager_api_webhook dev_server telemetry_section log_section
    cache_section manager_rpc_section portal_rpc_section
manager_api_config = sections (
    manager_api_head
    ∷ manager_api_webhook
    ∷ dev_server
    ∷ telemetry_section "manager-api"
    ∷ log_section "manager-api"
    ∷ cache_section
    ∷ manager_rpc_section
    ∷ portal_rpc_section
    ∷ [])

workload_api_head : List String
workload_api_head =
    "Name: workload-api" ∷ "Host: 0.0.0.0" ∷ "Port: 8812" ∷ "Mode: pro"
    ∷ "Timeout: ${DEFAULT_TIMEOUT}" ∷ "InjectImage: ${INJECT_IMAGE}" ∷ []

unfoldable pub workload_api_config : String
unfolding workload_api_head dev_server telemetry_section log_section cache_section
    manager_rpc_section portal_rpc_section
workload_api_config = sections (
    workload_api_head
    ∷ dev_server
    ∷ telemetry_section "workload-api"
    ∷ log_section "workload-api"
    ∷ cache_section
    ∷ manager_rpc_section
    ∷ portal_rpc_section
    ∷ [])

console_api_head : List String
console_api_head =
    "Name: console-api" ∷ "Host: 0.0.0.0" ∷ "Port: 8818" ∷ "Mode: pro"
    ∷ "Timeout: ${DEFAULT_TIMEOUT}" ∷ "MaxBytes: 5048576000" ∷ "LocalCacheDir: /app/cache" ∷ []

unfoldable pub console_api_config : String
unfolding console_api_head dev_server telemetry_section log_section cache_section
    manager_rpc_section console_rpc_section portal_rpc_section
console_api_config = sections (
    console_api_head
    ∷ dev_server
    ∷ telemetry_section "console-api"
    ∷ log_section "console-api"
    ∷ cache_section
    ∷ manager_rpc_section
    ∷ console_rpc_section
    ∷ portal_rpc_section
    ∷ [])
