-- ===== src/Tests.antt =====
-- A configuration and its parts, for the tests and the examples of the theorems.
pub mod Server
pub mod Promises
pub mod Reconciler
pub mod Guarded
pub mod Started
pub mod Deploying
pub mod Placed
pub mod Objects
pub mod Builders
use kube_nova_operator.Api.{KubeNova}
use kube_nova_operator.Api.Spec.{
  IngressConfig, KubeNovaSpec, ServiceConfig, ServicesConfig, StorageConfig, WebConfig,
}
use kube_nova_operator.Api.Status.{KubeNovaStatus, unset}
use kube_nova_operator.Controller.Reconcile.{finalizer}
use kube_nova_operator.Kube.{ObjectMeta, object_meta}
use kube_nova_operator.Prelude.{[], false, none, some, true, ◌∷◌}
use kube_nova_operator.Prelude.Int.{pos}

abbrev pub nova_meta : ObjectMeta
nova_meta = record (object_meta "demo" "nova" []) { finalizers = finalizer ∷ []; generation = 2 }

abbrev pub nova_storage : StorageConfig
nova_storage = record {
  endpoint = "minio.local:9000";
  endpoint_proxy = "";
  access_key = "minio";
  secret_key = "minio-secret";
  bucket = "nova";
  tls = some (record { enabled = true; secret_name = "minio-tls" });
}

abbrev pub nova_service : ServiceConfig
nova_service = record {
  enabled = some true;
  replicas = pos 2;
  image = "";
  resources = none;
  env = record { name = "LOG_LEVEL"; value = "info"; value_from = none } ∷ [];
}

abbrev pub nova_services : ServicesConfig
nova_services = record {
  global_timeout = pos 30;
  jwt = record {
    access_secret = "0123456789abcdef0123456789abcdef";
    access_expire = pos 3600;
    refresh_secret = "fedcba9876543210fedcba9876543210";
    refresh_expire = pos 7200;
    refresh_after = pos 1800;
  };
  portal = none;
  webhook_token = "token";
  inject_image = "";
  portal_api = some nova_service;
  portal_rpc = none;
  manager_api = some (record nova_service { enabled = some false });
  manager_rpc = none;
  workload_api = none;
  console_api = none;
  console_rpc = none;
}

abbrev pub nova_ingress : IngressConfig
nova_ingress = record {
  class_name = "nginx";
  host = "nova.example.com";
  tls = some (record { enabled = true; secret_name = "web-tls" });
  annotations = ("nginx.ingress.kubernetes.io/limit-rps", "5") ∷ [];
}

-- HTTPS on a node port, with the MinIO proxy.
abbrev pub nova_web : WebConfig
nova_web = record {
  replicas = pos 0;
  image = "";
  resources = none;
  expose_type = "nodeport";
  ingress = some nova_ingress;
  node_port = some (record {
    http_port = pos 30080;
    https = some (record { enabled = true; port = pos 30443; secret_name = "web-tls" });
  });
  minio_proxy = some (record { enabled = true; path_prefix = "/files"; proxy_endpoint = "" });
  custom_nginx_config_map = "";
}

abbrev pub nova_spec : KubeNovaSpec
nova_spec = record {
  image_registry = none;
  database = record {
    host = "mysql.local";
    port = pos 3306;
    database = "nova";
    user = "root";
    password = "secret";
    max_open_conns = pos 0;
    max_idle_conns = pos 0;
    conn_max_lifetime = "";
  };
  cache = record {
    host = "redis.local";
    port = pos 6379;
    kind = "node";
    password = "";
    tls = false;
    non_block = true;
    ping_timeout = "1s";
  };
  storage = nova_storage;
  telemetry = none;
  services = nova_services;
  web = nova_web;
}

abbrev pub nova_status : KubeNovaStatus
nova_status = record {
  phase = unset;
  conditions = [];
  component_status = record {
    database = none;
    cache = none;
    storage = none;
    telemetry = none;
    services = none;
    web = none;
  };
  access_info = none;
  message = "";
  last_update_time = 0;
  observed_generation = 0;
}

abbrev pub nova : KubeNova
nova = record { metadata = nova_meta; spec = nova_spec; status = nova_status }

-- The same behind an Ingress.
abbrev pub nova_behind_ingress : KubeNova
nova_behind_ingress = record nova {
  spec = record nova_spec { web = record nova_web { expose_type = "ingress" } };
}

-- The same with a database that the validator rejects.
abbrev pub nova_broken : KubeNova
nova_broken = record nova {
  spec = record nova_spec { database = record (nova_spec.database) { host = "" } };
}
