-- ===== src/Builder/Service/All.antt =====
-- `BuildAllServices` of internal/builder/service.go.
use kube_nova_operator.Api.{KubeNova}
use kube_nova_operator.Api.Endpoints.{storage_tls_on}
use kube_nova_operator.Api.Methods.{get_image_registry, is_service_enabled}
use kube_nova_operator.Api.Spec.{ImageRegistryConfig, ServiceConfig, StorageConfig}
use kube_nova_operator.Builder.ConfigMaps.{config_map}
use kube_nova_operator.Builder.Service.{ServiceResources, ServiceSetup}
use kube_nova_operator.Builder.Service.Pod.{build_service}
use kube_nova_operator.Prelude.{
  List, Option, String, [], false, if◌then◌else◌, none, some, true, ◌++◌, ◌∷◌,
}
use kube_nova_operator.Prelude.Int.{pos, ℤ}
use kube_nova_operator.Prelude.Maps.{Map}

-- A service with no special needs.
abbrev pub plain_setup :
    ImageRegistryConfig → String → ℤ → String → Option ServiceConfig → String → ServiceSetup
plain_setup registry name port config_map sc component = record {
  name = name;
  port = port;
  target_port = port;
  metrics_port = pos 9999;
  config_map_name = config_map;
  registry = registry;
  service_config = sc;
  component = component;
  need_minio_certs = false;
  minio_cert_secret = "";
  need_cache = false;
}

abbrev pub tls_secret_name : StorageConfig → String
tls_secret_name s = elim (s.tls) [ none ↦ "" | some t ↦ if t.enabled then t.secret_name else "" ]

abbrev pub portal_api_setup : KubeNova → ServiceSetup
portal_api_setup kn =
    plain_setup (get_image_registry kn) "portal-api" (pos 8810) "portal-api-config"
      kn.spec.services.portal_api "api"

abbrev pub portal_rpc_setup : KubeNova → ServiceSetup
portal_rpc_setup kn =
    let base =
      plain_setup (get_image_registry kn) "portal-rpc" (pos 30010) "portal-rpc-config"
        kn.spec.services.portal_rpc "rpc" in
    record base {
      need_minio_certs = storage_tls_on kn.spec.storage;
      minio_cert_secret = tls_secret_name kn.spec.storage;
    }

abbrev pub manager_api_setup : KubeNova → ServiceSetup
manager_api_setup kn =
    plain_setup (get_image_registry kn) "manager-api" (pos 8811) "manager-api-config"
      kn.spec.services.manager_api "api"

abbrev pub manager_rpc_setup : KubeNova → ServiceSetup
manager_rpc_setup kn =
    plain_setup (get_image_registry kn) "manager-rpc" (pos 30011) "manager-rpc-config"
      kn.spec.services.manager_rpc "rpc"

abbrev pub workload_api_setup : KubeNova → ServiceSetup
workload_api_setup kn =
    plain_setup (get_image_registry kn) "workload-api" (pos 8812) "workload-api-config"
      kn.spec.services.workload_api "api"

abbrev pub console_api_setup : KubeNova → ServiceSetup
console_api_setup kn =
    let base =
      plain_setup (get_image_registry kn) "console-api" (pos 8818) "console-api-config"
        kn.spec.services.console_api "api" in
    record base { need_cache = true }

abbrev pub console_rpc_setup : KubeNova → ServiceSetup
console_rpc_setup kn =
    let base =
      plain_setup (get_image_registry kn) "console-rpc" (pos 30018) "console-rpc-config"
        kn.spec.services.console_rpc "rpc" in
    record base { need_cache = true }

-- One of the seven blocks: the key that is assigned, the setting that is tested, and what is built.
pub record ServiceEntry : Type 0 where
  pub key : String
  pub setting : Option ServiceConfig
  pub setup : ServiceSetup

abbrev pub service_entry : String → Option ServiceConfig → ServiceSetup → ServiceEntry
service_entry key setting setup = record { key = key; setting = setting; setup = setup }

-- The block, which does nothing for a service that is switched off.
abbrev pub when_enabled : KubeNova → String → ServiceEntry → Map ServiceResources
when_enabled kn namespace e =
    if is_service_enabled e.setting then (e.key, build_service kn namespace e.setup) ∷ [] else []

-- The blocks in the order of the source.
abbrev pub all_entries : KubeNova → List ServiceEntry
all_entries kn =
    let s = kn.spec.services in
    service_entry "portal-api" s.portal_api (portal_api_setup kn)
    ∷ service_entry "portal-rpc" s.portal_rpc (portal_rpc_setup kn)
    ∷ service_entry "manager-api" s.manager_api (manager_api_setup kn)
    ∷ service_entry "manager-rpc" s.manager_rpc (manager_rpc_setup kn)
    ∷ service_entry "workload-api" s.workload_api (workload_api_setup kn)
    ∷ service_entry "console-api" s.console_api (console_api_setup kn)
    ∷ service_entry "console-rpc" s.console_rpc (console_rpc_setup kn)
    ∷ []

abbrev pub build_entries : KubeNova → String → List ServiceEntry → Map ServiceResources
build_entries kn namespace [] = []
build_entries kn namespace (e ∷ es) = when_enabled kn namespace e ++ build_entries kn namespace es

-- The keys are distinct, so the map that the code fills is this list.
unfoldable pub build_all_services : KubeNova → String → Map ServiceResources
build_all_services kn namespace = build_entries kn namespace (all_entries kn)
