-- ===== src/Builder/Service.antt =====
-- internal/builder/service.go: the Deployment and the Service of each back-end service.
pub mod Pod
pub mod All
pub mod Routing
pub mod Mounts
pub mod Certs
pub mod Supplied
use kube_nova_operator.Api.Spec.{ImageRegistryConfig, ServiceConfig}
use kube_nova_operator.Kube.Network.{Service}
use kube_nova_operator.Kube.Workload.{
  Deployment, KeyToPath, ResourceRequirements, SecurityContext, Volume, VolumeMount,
  config_map_volume, empty_dir, must_parse, new_quantity, secret_volume,
}
use kube_nova_operator.Prelude.{
  Bool, List, Option, String, [], false, if◌then◌else◌, none, not, some, true, ◌&&◌, ◌*◌, ◌++◌,
  ◌==◌, ◌∷◌,
}
use kube_nova_operator.Prelude.Int.{ℤ}

-- `serviceConfig`: what differs between the back-end services.
pub record ServiceSetup : Type 0 where
  pub name : String
  pub port : ℤ
  pub target_port : ℤ
  pub metrics_port : ℤ
  pub config_map_name : String
  pub registry : ImageRegistryConfig
  pub service_config : Option ServiceConfig
  pub component : String
  pub need_minio_certs : Bool
  pub minio_cert_secret : String
  pub need_cache : Bool

pub record ServiceResources : Type 0 where
  pub deployment : Deployment
  pub service : Service

abbrev pub default_resources : ResourceRequirements
default_resources = record {
  requests = some (("memory", must_parse "256Mi") ∷ ("cpu", must_parse "200m") ∷ []);
  limits = some (("memory", must_parse "512Mi") ∷ ("cpu", must_parse "1000m") ∷ []);
}

unfoldable pub get_service_resources : Option ServiceConfig → ResourceRequirements
get_service_resources none = default_resources
get_service_resources (some sc) = elim (sc.resources) [ none ↦ default_resources | some r ↦ r ]

abbrev pub needs_certs : ServiceSetup → Bool
needs_certs cfg = cfg.need_minio_certs && not (cfg.minio_cert_secret == "")

abbrev pub mount : String → String → Bool → VolumeMount
mount name path read_only = record {
  name = name;
  mount_path = path;
  sub_path = "";
  read_only = read_only;
}

unfoldable pub get_service_volume_mounts : ServiceSetup → List VolumeMount
get_service_volume_mounts cfg =
    (mount "config" "/app/etc" true ∷ [])
    ++ ((if needs_certs cfg then mount "minio-certs" "/app/etc/minio-certs" true ∷ [] else [])
        ++ (if cfg.need_cache then mount "cache" "/app/cache" false ∷ [] else []))

abbrev pub item : String → KeyToPath
item name = record { key = name; path = name }

unfoldable pub get_service_volumes : ServiceSetup → List Volume
get_service_volumes cfg =
    (record { name = "config"; source = config_map_volume cfg.config_map_name [] } ∷ [])
    ++ ((if needs_certs cfg
          then record {
            name = "minio-certs";
            source =
                secret_volume cfg.minio_cert_secret false
                  (item "public.crt" ∷ item "private.key" ∷ []);
          }
            ∷ []
          else [])
        ++ (if cfg.need_cache
            then record {
              name = "cache";
              source = empty_dir (new_quantity (1 * 1024 * 1024 * 1024) "BinarySI");
            }
              ∷ []
            else []))

abbrev pub get_security_context : SecurityContext
get_security_context = record {
  run_as_non_root = false;
  read_only_root_filesystem = false;
  allow_privilege_escalation = false;
  drop = "ALL" ∷ [];
}
