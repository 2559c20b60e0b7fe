-- ===== src/Builder/Web/Pod.antt =====
-- The pod of the web front end: `buildWebDeployment` of internal/builder/web.go and what it calls.
use kube_nova_operator.Api.{KubeNova}
use kube_nova_operator.Api.Methods.{get_image_registry, get_web_replicas}
use kube_nova_operator.Builder.{image_reference, spread}
use kube_nova_operator.Builder.Service.{item, mount}
use kube_nova_operator.Builder.Service.Pod.{container_port}
use kube_nova_operator.Builder.Web.{https_mode, https_secret, web_labels}
use kube_nova_operator.Kube.{object_meta}
use kube_nova_operator.Kube.Workload.{
  Container, ContainerPort, Deployment, EnvVar, Probe, ResourceRequirements, Volume, VolumeMount,
  config_map_volume, empty_dir, must_parse, new_quantity, secret_volume,
}
use kube_nova_operator.Prelude.{
  List, String, [], false, if◌then◌else◌, none, not, some, true, ℕ, ◌*◌, ◌==◌, ◌∷◌,
}
use kube_nova_operator.Prelude.Int.{pos}

unfoldable pub get_web_ports : KubeNova → List ContainerPort
get_web_ports kn =
    container_port "http" (pos 80)
    ∷ (if https_mode kn then container_port "https" (pos 443) ∷ [] else [])

abbrev pub default_web_resources : ResourceRequirements
default_web_resources = record {
  requests = some (("memory", must_parse "128Mi") ∷ ("cpu", must_parse "100m") ∷ []);
  limits = some (("memory", must_parse "512Mi") ∷ ("cpu", must_parse "500m") ∷ []);
}

unfoldable pub get_web_resource_requirements : KubeNova → ResourceRequirements
get_web_resource_requirements kn = elim (kn.spec.web.resources) [
  | none ↦ default_web_resources
  | some r ↦ r
]

abbrev pub file_mount : String → String → VolumeMount
file_mount path sub_path = record {
  name = "nginx-config";
  mount_path = path;
  sub_path = sub_path;
  read_only = false;
}

-- The branch of the source on a custom ConfigMap is empty.
unfoldable pub get_web_volume_mounts : KubeNova → List VolumeMount
get_web_volume_mounts kn =
    mount "cache" "/var/cache/nginx" false
    ∷ mount "logs" "/var/log/nginx" false
    ∷ mount "run" "/var/run" false
    ∷ file_mount "/etc/nginx/nginx.conf" "nginx.conf"
    ∷ file_mount "/etc/nginx/conf.d/default.conf" "default.conf"
    ∷ (if not (https_secret kn == "") then mount "tls-certs" "/etc/nginx/certs" true ∷ [] else [])

abbrev pub scratch : String → ℕ → Volume
scratch name size = record { name = name; source = empty_dir (new_quantity size "BinarySI") }

unfoldable pub get_web_volumes : KubeNova → List Volume
get_web_volumes kn =
    let custom = kn.spec.web.custom_nginx_config_map in
    record {
      name = "nginx-config";
      source =
          config_map_volume (if not (custom == "") then custom else "frontend-nginx-config")
            (item "nginx.conf" ∷ item "default.conf" ∷ []);
    }
    ∷ scratch "cache" (1 * 1024 * 1024 * 1024)
    ∷ scratch "logs" (500 * 1024 * 1024)
    ∷ scratch "run" (10 * 1024 * 1024)
    ∷ (if not (https_secret kn == "")
        then record { name = "tls-certs"; source = secret_volume (https_secret kn) false [] } ∷ []
        else [])

abbrev pub web_probe : ℕ → ℕ → ℕ → Probe
web_probe initial period failures = record {
  path = "/health";
  port = pos 80;
  scheme = "HTTP";
  initial_delay_seconds = initial;
  period_seconds = period;
  timeout_seconds = 3;
  success_threshold = 1;
  failure_threshold = failures;
}

abbrev pub variable : String → String → EnvVar
variable name value = record { name = name; value = value; value_from = none }

unfoldable pub web_container : KubeNova → Container
web_container kn = record {
  name = "kube-nova-web";
  image = image_reference (get_image_registry kn) "kube-nova-web" kn.spec.web.image;
  image_pull_policy = (get_image_registry kn).pull_policy;
  ports = get_web_ports kn;
  env_from = [];
  env =
      variable "TZ" "Asia/Shanghai"
      ∷ variable "NGINX_WORKER_PROCESSES" "auto"
      ∷ variable "NGINX_WORKER_CONNECTIONS" "4096"
      ∷ [];
  startup_probe = web_probe 0 2 30;
  liveness_probe = web_probe 10 10 3;
  readiness_probe = web_probe 5 5 3;
  resources = get_web_resource_requirements kn;
  volume_mounts = get_web_volume_mounts kn;
  security_context = none;
}

unfoldable pub build_web_deployment : KubeNova → String → Deployment
build_web_deployment kn namespace = record {
  metadata = object_meta "kube-nova-web" namespace (web_labels kn);
  spec = record {
    replicas = some (get_web_replicas kn.spec.web);
    max_surge = 1;
    max_unavailable = 0;
    selector = ("app", "kube-nova-web") ∷ [];
    template = record {
      labels = web_labels kn;
      annotations = [];
      spec = record {
        service_account_name = "";
        pod_anti_affinity = spread 100 "kube-nova-web";
        containers = web_container kn ∷ [];
        volumes = get_web_volumes kn;
        image_pull_secrets = (get_image_registry kn).pull_secrets;
        dns_policy = "ClusterFirst";
        restart_policy = "Always";
        termination_grace_period_seconds = 30;
      };
    };
  };
  ready_replicas = pos 0;
}
