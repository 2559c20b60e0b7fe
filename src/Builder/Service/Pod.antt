-- ===== src/Builder/Service/Pod.antt =====
-- `buildDeployment` and `buildK8sService` of internal/builder/service.go.
use kube_nova_operator.Api.{KubeNova}
use kube_nova_operator.Api.Methods.{get_replicas}
use kube_nova_operator.Api.Spec.{ServiceConfig}
use kube_nova_operator.Builder.{image_reference, service_account_name, spread}
use kube_nova_operator.Builder.Service.{
  ServiceResources, ServiceSetup, get_security_context, get_service_resources,
  get_service_volume_mounts, get_service_volumes,
}
use kube_nova_operator.Kube.{object_meta}
use kube_nova_operator.Kube.Network.{Service}
use kube_nova_operator.Kube.Workload.{Container, ContainerPort, Deployment, EnvVar, Probe}
use kube_nova_operator.Prelude.{List, Option, String, [], none, some, ℕ, ◌++◌, ◌∷◌}
use kube_nova_operator.Prelude.Int.{pos, ℤ}
use kube_nova_operator.Prelude.Maps.{Map}

-- A probe of the metrics port; the success threshold and the scheme are left at their zero values.
abbrev pub health_probe : ℤ → ℕ → ℕ → ℕ → Probe
health_probe port initial period failures = record {
  path = "/healthz";
  port = port;
  scheme = "";
  initial_delay_seconds = initial;
  period_seconds = period;
  timeout_seconds = 3;
  success_threshold = 0;
  failure_threshold = failures;
}

abbrev pub deployment_labels : KubeNova → ServiceSetup → Map String
deployment_labels kn cfg =
    ("app", cfg.name)
    ∷ ("component", cfg.component)
    ∷ ("app.kubernetes.io/name", "kube-nova")
    ∷ ("app.kubernetes.io/instance", kn.metadata.name)
    ∷ ("app.kubernetes.io/component", cfg.component)
    ∷ ("app.kubernetes.io/managed-by", "kube-nova-operator")
    ∷ []

abbrev pub custom_image : Option ServiceConfig → String
custom_image none = ""
custom_image (some sc) = sc.image

abbrev pub extra_env : Option ServiceConfig → List EnvVar
extra_env none = []
extra_env (some sc) = sc.env

abbrev pub base_env : List EnvVar
base_env =
    record { name = "TZ"; value = "Asia/Shanghai"; value_from = none }
    ∷ record { name = "POD_NAMESPACE"; value = ""; value_from = some "metadata.namespace" }
    ∷ []

abbrev pub container_port : String → ℤ → ContainerPort
container_port name port = record { name = name; container_port = port; protocol = "TCP" }

unfoldable pub service_container : ServiceSetup → Container
service_container cfg = record {
  name = cfg.name;
  image = image_reference cfg.registry cfg.name (custom_image cfg.service_config);
  image_pull_policy = cfg.registry.pull_policy;
  ports = container_port "" cfg.target_port ∷ container_port "metrics" cfg.metrics_port ∷ [];
  env_from = "kube-nova-secret" ∷ [];
  env = base_env ++ extra_env cfg.service_config;
  startup_probe = health_probe cfg.metrics_port 0 5 12;
  liveness_probe = health_probe cfg.metrics_port 30 10 3;
  readiness_probe = health_probe cfg.metrics_port 10 5 3;
  resources = get_service_resources cfg.service_config;
  volume_mounts = get_service_volume_mounts cfg;
  security_context = some get_security_context;
}

unfoldable pub build_deployment : KubeNova → String → ServiceSetup → Deployment
build_deployment kn namespace cfg = record {
  metadata = object_meta cfg.name namespace (deployment_labels kn cfg);
  spec = record {
    replicas = some (get_replicas cfg.service_config);
    max_surge = 1;
    max_unavailable = 0;
    selector = ("app", cfg.name) ∷ [];
    template = record {
      labels = deployment_labels kn cfg;
      annotations =
          ("prometheus.io/scrape", "true")
          ∷ ("prometheus.io/port", "9999")
          ∷ ("prometheus.io/path", "/metrics")
          ∷ [];
      spec = record {
        service_account_name = service_account_name;
        pod_anti_affinity = spread 50 cfg.name;
        containers = service_container cfg ∷ [];
        volumes = get_service_volumes cfg;
        image_pull_secrets = cfg.registry.pull_secrets;
        dns_policy = "ClusterFirst";
        restart_policy = "Always";
        termination_grace_period_seconds = 30;
      };
    };
  };
  ready_replicas = pos 0;
}

unfoldable pub build_k8s_service : String → ServiceSetup → Service
build_k8s_service namespace cfg = record {
  metadata = object_meta cfg.name namespace (("app", cfg.name) ∷ ("component", cfg.component) ∷ []);
  spec = record {
    kind = "ClusterIP";
    selector = ("app", cfg.name) ∷ [];
    ports =
        record {
          name = "http";
          port = cfg.port;
          target_port = cfg.target_port;
          protocol = "TCP";
          node_port = pos 0;
        }
        ∷ [];
    session_affinity = "";
    session_timeout = none;
    external_traffic_policy = "";
  };
}

unfoldable pub build_service : KubeNova → String → ServiceSetup → ServiceResources
build_service kn namespace cfg = record {
  deployment = build_deployment kn namespace cfg;
  service = build_k8s_service namespace cfg;
}
